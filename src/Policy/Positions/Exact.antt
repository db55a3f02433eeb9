-- ===== src/Policy/Positions/Exact.antt =====
-- src/policy.cpp, Positions: the positions that a derivation hint suggests.
use thunderden.Base.{
  ℕ, zero, suc, ◌≤◌, ◌<◌, ◌≡◌, refl, sym, ap, ◌∙◌, ◌↔◌, inl, inr, true, false, ◌&&◌, List, [], ◌∷◌,
  ◌++◌, Option, none, some, leb, and-true, ==_iff, ◌==◌, if◌then◌else◌, get_elem?, text_eq,
  text_eq→eq, text_eq_refl, In, In-append_left, In-append_right, In-append_cases, arith,
}
use mathlib.Core.Path.{subst}
use thunderden.Core.{Core}
use thunderden.Keys.{hardened}
use thunderden.Policy.{Position, Reference, KeyInfo, Policy}
use thunderden.Policy.Positions.{
  Hint, Steps, last_steps, names_account, ref_positions, all_positions, positions,
}
use thunderden.Policy.Positions.Paths.{
  branch_number, last_steps-snoc, some-injective, last_steps-inversion, In-if, if-In, In-then,
  then-In, In-else, else-In,
}

module _ (core : Core) (p : Policy core) where
  -- The hint leads to `position` through this reference: the key's origin, then the reference's branch
  -- number, then an unhardened index.
  pub record Leads (hint : Hint) (position : Position) (ref : Reference) : Type 0 where
    pub key : KeyInfo core
    pub key_is : get_elem? p.keys ref.key ≡ some key
    pub has_origin : key.has_origin ≡ true
    pub fingerprint : key.fingerprint ≡ hint.fingerprint
    pub path : hint.path ≡ key.origin ++ (branch_number ref position.branch ∷ (position.index ∷ []))
    pub branch : position.branch ≤ 1
    pub unhardened : position.index < hardened

  named :
      (hint : Hint) (account : List ℕ) (o : Option (KeyInfo core))
      → elim o [
        | none ↦ false
        | some key ↦
            key.has_origin
            && (text_eq key.fingerprint hint.fingerprint && text_eq key.origin account)
      ]
        ≡ true
      → (key : KeyInfo core) × (o ≡ some key)
        × (key.has_origin ≡ true)
        × (key.fingerprint ≡ hint.fingerprint)
        × (key.origin ≡ account)
  named hint account none h = cc
  named hint account (some key) h =
      let (a, b) = and-true _ _ h in
      let (c, d) = and-true _ _ b in (key, refl, a, text_eq→eq _ _ c, text_eq→eq _ _ d)

  named_by :
      (hint : Hint) (account : List ℕ) (o : Option (KeyInfo core)) (key : KeyInfo core)
      → o ≡ some key
      → key.has_origin ≡ true
      → key.fingerprint ≡ hint.fingerprint
      → key.origin ≡ account
      → elim o [
        | none ↦ false
        | some key ↦
            key.has_origin
            && (text_eq key.fingerprint hint.fingerprint && text_eq key.origin account)
      ]
        ≡ true
  named_by hint account o key found origin print same =
      rw (found, origin, print, same, text_eq_refl hint.fingerprint, text_eq_refl account) refl

  module _ (hint : Hint) (s : Steps) (low : s.index < hardened) where
    branch_of :
        (ref : Reference) (position : Position)
        → In position (
            (if s.branch == ref.receive then record { branch = 0; index = s.index } ∷ [] else [])
            ++ (if s.branch == ref.change then record { branch = 1; index = s.index } ∷ [] else []))
        → (branch_number ref position.branch ≡ s.branch)
          × (position.index ≡ s.index)
          × (position.branch ≤ 1)
    branch_of ref position h = elim (In-append_cases position _ _ h) [
      | inl k ↦
          let (c, e) =
            In-if (s.branch == ref.receive) (record { branch = 0; index = s.index }) position k in
          (
            ap (λ (q : Position). branch_number ref q.branch) e
                ∙ sym ((==_iff s.branch ref.receive).0 c),
            ap (λ (q : Position). q.index) e,
            rw e (omega arith),
          )
      | inr k ↦
          let (c, e) =
            In-if (s.branch == ref.change) (record { branch = 1; index = s.index }) position k in
          (
            ap (λ (q : Position). branch_number ref q.branch) e
                ∙ sym ((==_iff s.branch ref.change).0 c),
            ap (λ (q : Position). q.index) e,
            rw e (omega arith),
          )
    ]

    at_branch :
        (ref : Reference) (b i : ℕ)
        → branch_number ref b ≡ s.branch
        → i ≡ s.index
        → b ≤ 1
        → In {A = Position}
            (record { branch = b; index = i })
            ((if s.branch == ref.receive then record { branch = 0; index = s.index } ∷ [] else [])
              ++ (if s.branch == ref.change
                  then record { branch = 1; index = s.index } ∷ []
                  else []))
    at_branch ref zero i b e le =
        In-append_left (record { branch = 0; index = i })
          (if s.branch == ref.receive then record { branch = 0; index = s.index } ∷ [] else [])
          (if s.branch == ref.change then record { branch = 1; index = s.index } ∷ [] else [])
          (rw e (if-In (s.branch == ref.receive) _ ((==_iff s.branch ref.receive).1 (sym b))))
    at_branch ref (suc zero) i b e le =
        In-append_right (record { branch = 1; index = i })
          (if s.branch == ref.receive then record { branch = 0; index = s.index } ∷ [] else [])
          (if s.branch == ref.change then record { branch = 1; index = s.index } ∷ [] else [])
          (rw e (if-In (s.branch == ref.change) _ ((==_iff s.branch ref.change).1 (sym b))))
    at_branch ref (suc (suc n)) i b e le = let high : ⊥ = omega (arith, le) in absurd high

    -- One reference: its part of the result holds the positions that it leads to.
    ref-Leads :
        (ref : Reference) (position : Position)
        → last_steps hint.path ≡ some s
        → In position (ref_positions core p hint s ref)
        → Leads hint position ref
    unfolding ref_positions names_account
    ref-Leads ref position steps h =
        let (here, k) = In-then _ _ _ h in
        let (key, found, origin, print, account) =
          named hint s.account (get_elem? p.keys ref.key) here in
        let (b, i, le) = branch_of ref position k in
        record {
          key = key;
          key_is = found;
          has_origin = origin;
          fingerprint = print;
          path = last_steps-inversion hint.path s steps ∙ (rw (account, b, i) refl);
          branch = le;
          unhardened = rw i low;
        }

    Leads-ref :
        (ref : Reference) (position : Position)
        → last_steps hint.path ≡ some s
        → Leads hint position ref
        → In position (ref_positions core p hint s ref)
    unfolding ref_positions names_account
    Leads-ref ref position steps l =
        then-In _ _ _
          (named_by hint s.account (get_elem? p.keys ref.key) l.key l.key_is l.has_origin
            l.fingerprint (ap (λ (t : Steps). t.account) same))
          (at_branch ref position.branch position.index (ap (λ (t : Steps). t.branch) same)
            (ap (λ (t : Steps). t.index) same) l.branch)
      where
        same :
            ◌≡◌ {A = Steps}
              (record {
                account = l.key.origin;
                branch = branch_number ref position.branch;
                index = position.index;
              })
              s
        same = some-injective _ _ (
            sym (last_steps-snoc l.key.origin (branch_number ref position.branch) position.index)
            ∙ (sym (ap last_steps l.path) ∙ steps))

    all_inversion :
        (refs : List Reference) (position : Position)
        → In position (all_positions core p hint s refs)
        → (ref : Reference) × In ref refs × In position (ref_positions core p hint s ref)
    unfolding all_positions
    all_inversion [] position h = absurd h
    all_inversion (r ∷ refs) position h = elim (In-append_cases position _ _ h) [
      | inl k ↦ (r, inl refl, k)
      | inr k ↦ let (ref, i, q) = all_inversion refs position k in (ref, inr i, q)
    ]

    all_intro :
        (refs : List Reference) (ref : Reference) (position : Position)
        → In ref refs
        → In position (ref_positions core p hint s ref)
        → In position (all_positions core p hint s refs)
    unfolding all_positions
    all_intro [] ref position i h = absurd i
    all_intro (r ∷ refs) ref position (inl e) h =
        In-append_left _ _ _ (subst (λ r. In position (ref_positions core p hint s r)) e h)
    all_intro (r ∷ refs) ref position (inr i) h =
        In-append_right _ (ref_positions core p hint s r) _ (all_intro refs ref position i h)

  -- `Positions` returns a position if and only if one of the policy's references leads to it.
  pub positions_exact :
      (hint : Hint) (position : Position)
      → In position (positions core p hint)
        ↔ ((ref : Reference) × In ref p.references × Leads hint position ref)
  unfolding positions
  positions_exact hint position = (forward (last_steps hint.path) refl, backward)
    where
      forward :
          (o : Option Steps)
          → last_steps hint.path ≡ o
          → In position (elim o [
            | none ↦ []
            | some s ↦ if leb hardened s.index then [] else all_positions core p hint s p.references
          ])
          → (ref : Reference) × In ref p.references × Leads hint position ref
      forward none e h = absurd h
      forward (some s) e h =
          let (high, k) = In-else (leb hardened s.index) _ _ h in
          let low : s.index < hardened = ground arith in
          let (ref, i, q) = all_inversion hint s low p.references position k in
          (ref, i, ref-Leads hint s low ref position e q)

      backward :
          (ref : Reference) × In ref p.references × Leads hint position ref
          → In position (elim (last_steps hint.path) [
            | none ↦ []
            | some s ↦ if leb hardened s.index then [] else all_positions core p hint s p.references
          ])
      backward (ref, i, l) =
          let s : Steps = record {
            account = l.key.origin;
            branch = branch_number ref position.branch;
            index = position.index;
          } in
          let e : last_steps hint.path ≡ some s =
            ap last_steps l.path
            ∙ last_steps-snoc l.key.origin (branch_number ref position.branch) position.index in
          let low : position.index < hardened = l.unhardened in
          rw e (
            else-In (leb hardened position.index) _ _ (ground arith) (
              all_intro hint s low p.references ref position i
                (Leads-ref hint s low ref position e l)))
