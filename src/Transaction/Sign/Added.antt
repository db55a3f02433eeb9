-- ===== src/Transaction/Sign/Added.antt =====
-- src/transaction.cpp, ChangedEntries and AddedSignatures: what a positive count of new signatures means.
use thunderden.Base.{
  ℕ, ◌+◌, ◌≤◌, ◌≡◌, ◌≢◌, refl, ◌⊎◌, inl, inr, Bool, true, false, not, ◌&&◌, List, [], ◌∷◌, none,
  some, In, get_elem?, is_empty, if◌then◌else◌, Bytes, arith, text_eq, text_eq_refl,
}
use thunderden.Core.{Core}
use thunderden.Keys.{Keys}
use thunderden.Transaction.Library.{Bitcoin, PsbtInput, Psbt, Psbts}
use thunderden.Transaction.Review.{InputReview, ReviewedTransaction}
use thunderden.Transaction.Sign.{
  find_entry, changed_entries, same_signature, is_open, added_signatures,
}
use thunderden.Transaction.Sign.Steps.{SignsOne, Rounds, done, pass, round}

-- An entry of the later map that the earlier map does not have: its key is new or its value is.
abbrev pub HasNewEntry : {A : Type 0} → List (Bytes × A) → List (Bytes × A) → Type 0
HasNewEntry {A = A} before after =
    (key : Bytes) × (value : A) × In (key, value) after × (find_entry key before ≢ some value)

positive : (a b : ℕ) → 1 ≤ a + b → (1 ≤ a) ⊎ (1 ≤ b)
positive a b h = omega (arith, h)

counted-new :
    {A : Type 0} (same : A → A → Bool)
    → ((a : A) → same a a ≡ true)
    → (before : List (Bytes × A)) (key : Bytes) (value : A)
    → 1 ≤ elim (find_entry key before) [ none ↦ 1 | some old ↦ if same old value then 0 else 1 ]
    → find_entry key before ≢ some value
counted-new same same_refl before key value h =
    λ e. let h1 = rw e at h in let h2 = rw (same_refl value) at h1 in omega (arith, h2)

changed-HasNewEntry :
    {A : Type 0} (same : A → A → Bool)
    → ((a : A) → same a a ≡ true)
    → (before after : List (Bytes × A)) → 1 ≤ changed_entries same before after
    → HasNewEntry before after
unfolding changed_entries
changed-HasNewEntry same same_refl before [] h = absurd (omega (arith, h))
changed-HasNewEntry same same_refl before ((key, value) ∷ after) h =
    let n : ℕ = elim (find_entry key before) [
      | none ↦ 1
      | some old ↦ if same old value then 0 else 1
    ] in
    elim (positive n (changed_entries same before after) h) [
      | inl here ↦ (key, value, inl refl, counted-new same same_refl before key value here)
      | inr there ↦
          let (k, v, there', fresh) = changed-HasNewEntry same same_refl before after there in
          (k, v, inr there', fresh)
    ]

same_signature_refl : (a : Bytes × Bytes) → same_signature a a ≡ true
unfolding same_signature
same_signature_refl a = rw (text_eq_refl a.0, text_eq_refl a.1) refl

module _ (core : Core) (bitcoin : Bitcoin core) (lib : Psbts core bitcoin) where
  -- A signature that the earlier input does not have: of a key, of a Taproot leaf or of the Taproot key.
  abbrev pub HasNewSignature : PsbtInput core bitcoin → PsbtInput core bitcoin → Type 0
  HasNewSignature before after =
      HasNewEntry before.partial_sigs after.partial_sigs
      ⊎ HasNewEntry before.tap_script_sigs after.tap_script_sigs
      ⊎ ((after.tap_key_sig ≢ []) × (after.tap_key_sig ≢ before.tap_key_sig))

  new-key-sig :
      (old new : Bytes)
      → 1 ≤ (if not (is_empty new) && not (text_eq new old) then 1 else 0)
      → (new ≢ []) × (new ≢ old)
  new-key-sig old [] h = absurd (omega (arith, h))
  new-key-sig old (c ∷ new) h =
      (λ e. cc, λ e. let h1 = rw (e, text_eq_refl old) at h in omega (arith, h1))

  pub added-HasNewSignature :
      (before after : PsbtInput core bitcoin)
      → 1 ≤ added_signatures core bitcoin lib before after
      → HasNewSignature before after
  unfolding added_signatures
  added-HasNewSignature before after h =
      let scripts = changed_entries text_eq before.tap_script_sigs after.tap_script_sigs in
      elim (positive (changed_entries same_signature before.partial_sigs after.partial_sigs) _ h) [
        | inl keys ↦ inl (changed-HasNewEntry same_signature same_signature_refl _ _ keys)
        | inr h1 ↦ elim (positive scripts _ h1) [
          | inl leaves ↦ inr (inl (changed-HasNewEntry text_eq text_eq_refl _ _ leaves))
          | inr key ↦ inr (inr (new-key-sig before.tap_key_sig after.tap_key_sig key))
        ]
      ]

  -- Rounds of the loop of which one leaves the request's input with a new signature.
  pub data AddsSignature (t : ReviewedTransaction core bitcoin lib) (session : Keys core)
      : ℕ → List (InputReview core bitcoin) → Psbt core bitcoin → Psbt core bitcoin → Type 0 where
    here :
        {index n : ℕ} {r : InputReview core bitcoin} {rs : List (InputReview core bitcoin)}
        {a b c : Psbt core bitcoin}
        → (before after : PsbtInput core bitcoin) → is_open core bitcoin lib r ≡ true
        → SignsOne core bitcoin lib t session index r a b
        → get_elem? t.request.psbt.inputs index ≡ some before
        → get_elem? b.inputs index ≡ some after
        → HasNewSignature before after
        → Rounds core bitcoin lib t session (index + 1) rs b c n
        → AddsSignature t session index (r ∷ rs) a c
    over :
        {index : ℕ} {r : InputReview core bitcoin} {rs : List (InputReview core bitcoin)}
        {a c : Psbt core bitcoin}
        → is_open core bitcoin lib r ≡ false
        → AddsSignature t session (index + 1) rs a c
        → AddsSignature t session index (r ∷ rs) a c
    after_round :
        {index : ℕ} {r : InputReview core bitcoin} {rs : List (InputReview core bitcoin)}
        {a b c : Psbt core bitcoin}
        → is_open core bitcoin lib r ≡ true
        → SignsOne core bitcoin lib t session index r a b
        → AddsSignature t session (index + 1) rs b c
        → AddsSignature t session index (r ∷ rs) a c

  -- Rounds that count a signature have one that adds it.
  pub rounds-AddsSignature :
      (t : ReviewedTransaction core bitcoin lib) (session : Keys core) (index : ℕ)
      (rs : List (InputReview core bitcoin)) (a c : Psbt core bitcoin) (n : ℕ)
      → Rounds core bitcoin lib t session index rs a c n
      → 1 ≤ n
      → AddsSignature t session index rs a c
  rounds-AddsSignature t session index _ a _ _ done h = absurd (omega (arith, h))
  rounds-AddsSignature t session index _ a c n (pass {rs = rs} shut rest) h =
      over shut (rounds-AddsSignature t session (index + 1) rs a c n rest h)
  rounds-AddsSignature t session index _ a c _
        (round {n = n} {rs = rs} {b = b} before after yes_open one was now rest) h =
      elim (positive (added_signatures core bitcoin lib before after) n h) [
        | inl new ↦
            here before after yes_open one was now (added-HasNewSignature before after new) rest
        | inr more ↦
            after_round yes_open one (rounds-AddsSignature t session (index + 1) rs b c n rest more)
      ]
