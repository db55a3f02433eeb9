-- ===== src/AddressCheck/Search.antt =====
-- What `FindAddress` finds, and what it has checked when it finds nothing.
use thunderden.Base.{
  ℕ, zero, suc, ◌+◌, ◌-◌, ◌≤◌, ◌<◌, ◌≡◌, ◌⊎◌, inl, inr, refl, sym, ap, ◌∙◌, Bool, true, false, ◌&&◌,
  Option, none, some, leb, Result, ok, err, ◌>>=◌, if◌then◌else◌, >>=-eq-ok, ok-injective,
  Result-cases, Bool-cases, leb→le, arith,
}
use Prim.Native.String.{String}
use mathlib.Core.Path.{subst}
use thunderden.Core.{Core}
use thunderden.Policy.{Position, Policy}
use thunderden.AddressCheck.{
  Look, stopped, found, missed, has_script, look, search, find_address, address_index_end,
  address_search_window,
}

module _ (core : Core) (p : Policy core) (target : core.Script) where
  -- Neither the receiving nor the change address of this number has the script.
  abbrev pub IsMiss : ℕ → Type 0
  IsMiss i = (has_script core p target 0 i ≡ ok false) × (has_script core p target 1 i ≡ ok false)

  -- The result where `next` is left at `n`: a match is the first of its number's two addresses.
  abbrev pub IsOutcome : ℕ → ℕ → Result (Option Position) → Type 0
  IsOutcome n end (err e) = n < end
  IsOutcome n end (ok none) = n ≤ end
  IsOutcome n end (ok (some q)) =
      (n < end)
      × (q.index ≡ n)
      × (((q.branch ≡ 0) × (has_script core p target 0 n ≡ ok true))
          ⊎ ((q.branch ≡ 1)
              × (has_script core p target 0 n ≡ ok false)
              × (has_script core p target 1 n ≡ ok true)))

  abbrev pub IsSearch : ℕ → ℕ → ℕ × Result (Option Position) → Type 0
  IsSearch next end r =
      (next ≤ r.0) × IsOutcome r.0 end r.1 × ((i : ℕ) → next ≤ i → i < r.0 → IsMiss i)

  module _ (S : Type 0) (proceed : S → ℕ → Result (Bool × S)) where
    answered :
        (s s' : S) (branch i : ℕ) (more : Bool) (l : Look S)
        → (if more
            then (has_script core p target branch i >>= λ here.
                ok (if here then found else missed s'))
            else ok stopped)
          ≡ ok l
        → (l ≡ stopped)
          ⊎ ((l ≡ found) × (has_script core p target branch i ≡ ok true))
          ⊎ ((t : S) × (l ≡ missed t) × (has_script core p target branch i ≡ ok false))
    answered s s' branch i false l h = inl (sym (ok-injective _ _ h))
    answered s s' branch i true l h =
        let (here, e, k) = >>=-eq-ok (has_script core p target branch i) _ h in
        told here e (ok-injective _ _ k)
      where
        told :
            (here : Bool)
            → has_script core p target branch i ≡ ok here
            → (if here then found else missed s') ≡ l
            → (l ≡ stopped)
              ⊎ ((l ≡ found) × (has_script core p target branch i ≡ ok true))
              ⊎ ((t : S) × (l ≡ missed t) × (has_script core p target branch i ≡ ok false))
        told true e k = inr (inl (sym k, e))
        told false e k = inr (inr (s', sym k, e))

    look_cases :
        (s : S) (branch i : ℕ)
        → ((e : String) × (look core p target S proceed s branch i ≡ err e))
          ⊎ (look core p target S proceed s branch i ≡ ok stopped)
          ⊎ ((look core p target S proceed s branch i ≡ ok found)
              × (has_script core p target branch i ≡ ok true))
          ⊎ ((t : S) × (look core p target S proceed s branch i ≡ ok (missed t))
              × (has_script core p target branch i ≡ ok false))
    unfolding look
    look_cases s branch i = elim (Result-cases (look core p target S proceed s branch i)) [
      | inr (e, k) ↦ inl (e, k)
      | inl (l, k) ↦
          let ((more, s'), a, b) = >>=-eq-ok (proceed s i) _ k in
          elim (answered s s' branch i more l b) [
            | inl h ↦ inr (inl (k ∙ ap ok h))
            | inr (inl (h, m)) ↦ inr (inr (inl (k ∙ ap ok h, m)))
            | inr (inr (t, h, m)) ↦ inr (inr (inr (t, k ∙ ap ok h, m)))
          ]
    ]

    -- One number more that was missed, before a search that goes on behind it.
    further :
        (next n : ℕ) (r : ℕ × Result (Option Position))
        → IsMiss next
        → IsSearch (next + 1) (next + 1 + n) r
        → IsSearch next (next + suc n) r
    further next n r miss (le, outcome, missed_all) = (
      omega (arith, le),
      subst (λ e. IsOutcome r.0 e r.1) (omega arith) outcome,
      λ i a b. elim (Bool-cases (leb (next + 1) i)) [
        | inl h ↦ missed_all i (leb→le (next + 1) i h) b
        | inr h ↦ let same : next ≡ i = ground arith in subst IsMiss same miss
      ],
    )

    nothing : (next i : ℕ) → next ≤ i → i < next → IsMiss i
    nothing next i a b = let bad : ⊥ = omega (arith, a, b) in absurd bad

    search-IsSearch :
        (n : ℕ) (s : S) (next : ℕ)
        → IsSearch next (next + n) (search core p target S proceed n s next)
    unfolding search
    search-IsSearch zero s next = (omega arith, omega arith, nothing next)
    search-IsSearch (suc n) s next = elim (look_cases s 0 next) [
      | inl (e, k) ↦ rw (k, search) (omega arith, omega arith, nothing next)
      | inr (inl k) ↦ rw (k, search) (omega arith, omega arith, nothing next)
      | inr (inr (inl (k, m))) ↦
          rw (k, search) (omega arith, (omega arith, refl, inl (refl, m)), nothing next)
      | inr (inr (inr (s1, k, m))) ↦ elim (look_cases s1 1 next) [
        | inl (e, k1) ↦ rw (k, k1, search) (omega arith, omega arith, nothing next)
        | inr (inl k1) ↦ rw (k, k1, search) (omega arith, omega arith, nothing next)
        | inr (inr (inl (k1, m1))) ↦
            rw (k, k1, search) (omega arith, (omega arith, refl, inr (refl, m, m1)), nothing next)
        | inr (inr (inr (s2, k1, m1))) ↦
            rw (k, k1, search)
              (further next n (search core p target S proceed n s2 (next + 1)) (m, m1)
                (search-IsSearch n s2 (next + 1)))
      ]
    ]

    -- From a range that `FindAddress` accepts, `next` ends between its start and the end. Every number
    -- before it was missed at both branches; a position that is returned stands at `next`, has the script,
    -- and is the first of that number's two; and nothing is searched beyond the end.
    pub find_address_outcome :
        (s : S) (next end : ℕ)
        → next ≤ end
        → end ≤ address_index_end
        → end ≤ next + address_search_window
        → IsSearch next end (find_address core p target S (some proceed) s next end)
    unfolding find_address
    find_address_outcome s next end low high window =
        let accepted : (leb next end
              && (leb end address_index_end && leb (end - next) address_search_window))
            ≡ true =
          ground arith in
        rw accepted (
          subst (λ e. IsSearch next e (search core p target S proceed (end - next) s next))
            (omega arith) (search-IsSearch (end - next) s next))
