-- ===== src/Transaction/Locate/Unique.antt =====
-- src/transaction.cpp, Locate: which position it returns.
use thunderden.Base.{
  ◌+◌, ◌≡◌, refl, sym, ◌⊎◌, inl, inr, true, false, List, [], ◌∷◌, Option, none, some, leb, length,
  Result, ok, err, Bytes, arith, In, >>=-eq-ok, require-eq-ok, ok-injective, Bool-cases,
}
use Prim.Native.String.{String}
use mathlib.Core.Path.{subst}
use thunderden.Core.{Core}
use thunderden.Policy.{Position, Policy}
use thunderden.Policy.Positions.{Hint, positions, script}
use thunderden.Transaction.Locate.{position_lt, insert, insert_all, collect, pick, locate}

position_lt-eq : (p q : Position) → position_lt p q ≡ false → position_lt q p ≡ false → p ≡ q
unfolding position_lt
position_lt-eq p q h k = ground arith

-- A set holds what was inserted and what it held, and no more.
In-insert : (x p : Position) (l : List Position) → In x (insert position_lt p l) → (x ≡ p) ⊎ In x l
unfolding insert
In-insert x p [] (inl e) = inl e
In-insert x p [] (inr h) = absurd h
In-insert x p (q ∷ l) h = elim (Bool-cases (position_lt p q)) [
  | inl a ↦ elim (rw a at h) [ inl e ↦ inl e | inr k ↦ inr k ]
  | inr a ↦ elim (Bool-cases (position_lt q p)) [
    | inl b ↦ elim (rw (a, b) at h) [
      | inl e ↦ inr (inl e)
      | inr k ↦ elim (In-insert x p l k) [ inl e ↦ inl e | inr m ↦ inr (inr m) ]
    ]
    | inr b ↦ inr (rw (a, b) at h)
  ]
]

insert-In_self : (p : Position) (l : List Position) → In p (insert position_lt p l)
unfolding insert
insert-In_self p [] = inl refl
insert-In_self p (q ∷ l) = elim (Bool-cases (position_lt p q)) [
  | inl a ↦ rw a (inl refl)
  | inr a ↦ elim (Bool-cases (position_lt q p)) [
    | inl b ↦ rw (a, b) (inr (insert-In_self p l))
    | inr b ↦ rw (a, b) (inl (position_lt-eq p q a b))
  ]
]

insert-In : (x p : Position) (l : List Position) → In x l → In x (insert position_lt p l)
unfolding insert
insert-In x p [] h = absurd h
insert-In x p (q ∷ l) h = elim (Bool-cases (position_lt p q)) [
  | inl a ↦ rw a (inr h)
  | inr a ↦ elim (Bool-cases (position_lt q p)) [
    | inl b ↦ rw (a, b) (elim h [ inl e ↦ inl e | inr k ↦ inr (insert-In x p l k) ])
    | inr b ↦ rw (a, b) h
  ]
]

In-insert_all : (x : Position) (ps l : List Position) → In x (insert_all ps l) → In x ps ⊎ In x l
unfolding insert_all
In-insert_all x [] l h = inr h
In-insert_all x (p ∷ ps) l h = elim (In-insert_all x ps (insert position_lt p l) h) [
  | inl k ↦ inl (inr k)
  | inr k ↦ elim (In-insert x p l k) [ inl e ↦ inl (inl e) | inr m ↦ inr m ]
]

insert_all-In_old : (x : Position) (ps l : List Position) → In x l → In x (insert_all ps l)
unfolding insert_all
insert_all-In_old x [] l h = h
insert_all-In_old x (p ∷ ps) l h =
    insert_all-In_old x ps (insert position_lt p l) (insert-In x p l h)

insert_all-In : (x : Position) (ps l : List Position) → In x ps → In x (insert_all ps l)
unfolding insert_all
insert_all-In x [] l h = absurd h
insert_all-In x (p ∷ ps) l (inl e) =
    insert_all-In_old x ps (insert position_lt p l) (rw e (insert-In_self p l))
insert_all-In x (p ∷ ps) l (inr h) = insert_all-In x ps (insert position_lt p l) h

module _ (core : Core) (p : Policy core) where
  -- A position that one of the hints spells out.
  abbrev pub IsHinted : List (Bytes × Hint) → Position → Type 0
  IsHinted [] q = ⊥
  IsHinted ((key, hint) ∷ hints) q = In q (positions core p hint) ⊎ IsHinted hints q

  -- The policy's own script at the position is the target.
  abbrev pub HasScript : core.Script → Position → Type 0
  HasScript target q =
      (s : core.Script) × (script core p q.branch q.index ≡ ok s) × (core.script_eq s target ≡ true)

  collect_holds :
      (hints : List (Bytes × Hint)) (l r : List Position)
      → collect core p hints l ≡ ok r
      → (q : Position) → (In q r → IsHinted hints q ⊎ In q l) × (IsHinted hints q ⊎ In q l → In q r)
  unfolding collect
  collect_holds [] l r e q =
      let same : l ≡ r = ok-injective l r e in
      (
        λ h. inr (subst (In q) (sym same) h),
        λ h. elim h [ inl n ↦ absurd n | inr k ↦ subst (In q) same k ],
      )
  collect_holds ((key, hint) ∷ hints) l r e q =
      let (_, e1) = require-eq-ok (leb (length (insert_all (positions core p hint) l)) 16) _ _ e in
      let (out, into) = collect_holds hints (insert_all (positions core p hint) l) r e1 q in
      (
        λ h. elim (out h) [
          | inl k ↦ inl (inr k)
          | inr k ↦ elim (In-insert_all q (positions core p hint) l k) [
            | inl m ↦ inl (inl m)
            | inr m ↦ inr m
          ]
        ],
        λ h. elim h [
          | inl (inl k) ↦ into (inr (insert_all-In q (positions core p hint) l k))
          | inl (inr k) ↦ into (inl k)
          | inr k ↦ into (inr (insert_all-In_old q (positions core p hint) l k))
        ],
      )

  module _ (target : core.Script) where
    -- What `pick` found among candidates: one with the script, or none with it.
    abbrev pub IsPicked : (Position → Type 0) → Option Position → Type 0
    IsPicked Among none = (q : Position) → Among q → HasScript target q → ⊥
    IsPicked Among (some a) =
        Among a × HasScript target a × ((q : Position) → Among q → HasScript target q → q ≡ a)

    not_it :
        (c : Position) (s : core.Script)
        → script core p c.branch c.index ≡ ok s
        → core.script_eq s target ≡ false
        → HasScript target c
        → ⊥
    not_it c s e f (s', e', t) = cc

    -- With a result in hand, no later candidate has the script.
    pick_rest :
        (cs : List Position) (a : Position) (r : Option Position)
        → pick core p target cs (some a) ≡ ok r
        → (r ≡ some a) × ((q : Position) → In q cs → HasScript target q → ⊥)
    unfolding pick
    pick_rest [] a r e = (sym (ok-injective _ _ e), λ q h k. absurd h)
    pick_rest (c ∷ cs) a r e =
        let (s, es, e1) = >>=-eq-ok (script core p c.branch c.index) _ e in
        elim (Bool-cases (core.script_eq s target)) [
          | inl t ↦ absurd (not_ok (rw t at e1))
          | inr f ↦
              let (same, none_of) = pick_rest cs a r (rw f at e1) in
              (
                same,
                λ q h k. elim h [
                  | inl x ↦ not_it c s es f (subst (HasScript target) x k)
                  | inr m ↦ none_of q m k
                ],
              )
        ]
      where
        not_ok : {A : Type 0} {m : String} {v : A} → ◌≡◌ {A = Result A} (err m) (ok v) → ⊥
        not_ok q = cc

    pick_first :
        (cs : List Position) (r : Option Position)
        → pick core p target cs none ≡ ok r
        → IsPicked (λ q. In q cs) r
    unfolding pick
    pick_first [] r e = subst (IsPicked (λ q. In q [])) (ok-injective none r e) (λ q h k. absurd h)
    pick_first (c ∷ cs) r e =
        let (s, es, e1) = >>=-eq-ok (script core p c.branch c.index) _ e in
        elim (Bool-cases (core.script_eq s target)) [
          | inl t ↦
              let (same, none_of) = pick_rest cs c r (rw t at e1) in
              subst (IsPicked (λ q. In q (c ∷ cs))) (sym same) (
                inl refl,
                (s, es, t),
                λ q h k. elim h [ inl x ↦ x | inr m ↦ absurd (none_of q m k) ],
              )
          | inr f ↦ later r s es f (pick_first cs r (rw f at e1))
        ]
      where
        later :
            (r : Option Position) (s : core.Script)
            → script core p c.branch c.index ≡ ok s
            → core.script_eq s target ≡ false
            → IsPicked (λ q. In q cs) r
            → IsPicked (λ q. In q (c ∷ cs)) r
        later none s es f h = λ q i k. elim i [
          | inl x ↦ not_it c s es f (subst (HasScript target) x k)
          | inr m ↦ h q m k
        ]
        later (some a) s es f (m, t, only) = (
          inr m,
          t,
          λ q i k. elim i [
            | inl x ↦ absurd (not_it c s es f (subst (HasScript target) x k))
            | inr n ↦ only q n k
          ],
        )

    -- A hint of either kind.
    abbrev pub IsNamed : List (Bytes × Hint) → List (Bytes × Hint) → Position → Type 0
    IsNamed hd_keypaths tap_paths q = IsHinted hd_keypaths q ⊎ IsHinted tap_paths q

    rename_among :
        (A B : Position → Type 0) (r : Option Position)
        → ((q : Position) → A q → B q)
        → ((q : Position) → B q → A q)
        → IsPicked A r
        → IsPicked B r
    rename_among A B none f g h = λ q b k. h q (g q b) k
    rename_among A B (some a) f g (m, t, only) = (f a m, t, λ q b k. only q (g q b) k)

    -- Where `Locate` returns a position, a hint of the request names it, the policy's script there is the
    -- given one, and no other named position has that script. Where it returns none, no named position
    -- has the script.
    pub locate_unique :
        (hd_keypaths tap_paths : List (Bytes × Hint)) (r : Option Position)
        → locate core p target hd_keypaths tap_paths ≡ ok r
        → IsPicked (IsNamed hd_keypaths tap_paths) r
    unfolding locate
    locate_unique hd_keypaths tap_paths r e =
        let (_, e1) = require-eq-ok (leb (length hd_keypaths + length tap_paths) 128) _ _ e in
        let (l, a, e2) = >>=-eq-ok (collect core p hd_keypaths []) _ e1 in
        let (cs, b, e3) = >>=-eq-ok (collect core p tap_paths l) _ e2 in
        rename_among (λ q. In q cs) (IsNamed hd_keypaths tap_paths) r
          (λ q h. elim ((collect_holds tap_paths l cs b q).0 h) [
            | inl k ↦ inr k
            | inr k ↦ elim ((collect_holds hd_keypaths [] l a q).0 k) [
              | inl m ↦ inl m
              | inr m ↦ absurd m
            ]
          ])
          (λ q h. elim h [
            | inl k ↦
                (collect_holds tap_paths l cs b q).1
                  (inr ((collect_holds hd_keypaths [] l a q).1 (inl k)))
            | inr k ↦ (collect_holds tap_paths l cs b q).1 (inl k)
          ])
          (pick_first cs r e3)
