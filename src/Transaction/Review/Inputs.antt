-- ===== src/Transaction/Review/Inputs.antt =====
-- src/transaction.cpp, the constructor of ReviewedTransaction: one round of its loop over the inputs.
use thunderden.Base.{
  ℕ, ◌+◌, ◌≤◌, ◌≡◌, refl, sym, ap, ◌∙◌, ◌⊎◌, inl, inr, Bool, true, false, not, ◌&&◌, ◌||◌, [], ◌∷◌,
  ◌++◌, Option, none, some, ltb, ◌==◌, if◌then◌else◌, is_some, get_elem?, Result, ok, ◌>>=◌,
  or_throw, arith, Ensures, Ensures-if, Ensures-weaken, returns, Ensures-bind, Ensures-require,
  Ensures-then, Option-cases, >>=-eq-ok, ok-injective, ==_iff,
}
use mathlib.Core.Path.{subst}
use thunderden.Core.{Core}
use thunderden.Policy.{Position, Policy}
use thunderden.Policy.Positions.{public_provider}
use thunderden.Transaction.Library.{Bitcoin, TxOut, TxIn, PsbtInput, Psbts, failed}
use thunderden.Transaction.{
  max_money, add_amount, witness_version, external_scripts, signing_rule, check_signatures,
  check_scripts,
}
use thunderden.Transaction.Locate.{locate}
use thunderden.Transaction.Read.{PsbtData}
use thunderden.Transaction.Read.Fee.{add_amount_exact}
use thunderden.Transaction.Review.{
  InputReview, Progress, set_input, clean_input, open_input, review_input,
}

is-version :
    (n : ℕ) (version : Option ℕ)
    → elim version [ none ↦ false | some v ↦ v == n ] ≡ true
    → version ≡ some n
is-version n none e = cc
is-version n (some v) e = ap some ((==_iff v n).0 e)

-- The test of the code for amounts that no signature would cover.
covered-test :
    (taproot segwit full : Bool) (missing : ℕ)
    → not taproot && ltb (if segwit && not full then 1 else 0) missing ≡ false
    → (taproot ≡ true) ⊎ ((missing ≡ 0) ⊎ ((segwit ≡ true) × (full ≡ false) × (missing ≤ 1)))
covered-test true segwit full missing e = inl refl
covered-test false true true missing e = inr (inl (ground (arith, e)))
covered-test false true false missing e = inr (inr (refl, refl, ground (arith, e)))
covered-test false false full missing e = inr (inl (ground (arith, e)))

module _ (core : Core) (bitcoin : Bitcoin core) where
  abbrev pub own_amount : InputReview core bitcoin → ℕ
  own_amount seen = if is_some seen.position then seen.amount else 0

  -- What is shown of an input is what the request has there.
  abbrev pub Shows :
      Policy core
      → (lib : Psbts core bitcoin) → TxIn core bitcoin
      → PsbtInput core bitcoin
      → TxOut core
      → InputReview core bitcoin
      → Type 0
  Shows policy lib txin input utxo seen =
      (locate core policy utxo.script input.hd_keypaths input.tap_paths ≡ ok seen.position)
      × (seen.previous ≡ txin.previous)
      × (seen.sequence ≡ txin.sequence)
      × (seen.amount ≡ utxo.value)
      × (seen.finalized ≡ lib.is_signed input)
      × (seen.full_previous ≡ is_some input.non_witness_utxo)

  -- A signature of a Taproot input covers all amounts. Otherwise no previous transaction may be missing, or
  -- only that of a SegWit v0 input, whose signature covers its own amount.
  abbrev pub CoversAmounts : PsbtInput core bitcoin → ℕ → Option ℕ → Type 0
  CoversAmounts input missing version =
      (version ≡ some 1)
      ⊎ ((missing ≡ 0)
          ⊎ ((version ≡ some 0) × (is_some input.non_witness_utxo ≡ false) × (missing ≤ 1)))

  covers-unverified :
      (input : PsbtInput core bitcoin) (missing : ℕ) (version : Option ℕ)
      → not (elim version [ none ↦ false | some v ↦ v == 1 ])
          && ltb
              (if elim version [ none ↦ false | some v ↦ v == 0 ]
                  && not (is_some input.non_witness_utxo)
                then 1
                else 0)
              missing
        ≡ false
      → CoversAmounts input missing version
  covers-unverified input missing version e =
      elim (covered-test (elim version [ none ↦ false | some v ↦ v == 1 ])
        (elim version [ none ↦ false | some v ↦ v == 0 ]) (is_some input.non_witness_utxo) missing
        e) [
          | inl taproot ↦ inl (is-version 1 version taproot)
          | inr (inl all_full) ↦ inr (inl all_full)
          | inr (inr (segwit, part, one)) ↦ inr (inr (is-version 0 version segwit, part, one))
        ]

  module _ (lib : Psbts core bitcoin) (policy : Policy core)
      (request : PsbtData core bitcoin lib) where
    open_input_lem :
        (index : ℕ) (input : PsbtInput core bitcoin) (utxo : TxOut core) (provider : core.Provider)
        (version : Option ℕ) (s : Progress core bitcoin lib)
        → Ensures
            (λ (s' : Progress core bitcoin lib).
              (s'.inputs ≡ s.inputs)
              × (s'.recognized_inputs ≡ s.recognized_inputs)
              × (s'.unrecognized_inputs ≡ s.unrecognized_inputs)
              × ((s'.fee_unverified ≡ true)
                  ⊎ ((s.fee_unverified ≡ false)
                      × CoversAmounts input request.missing_previous version)))
            (open_input core bitcoin lib request index input utxo provider version s)
    unfolding open_input
    open_input_lem index input utxo provider version s =
        Ensures-then (check_signatures core bitcoin input (signing_rule core bitcoin utxo)) (
          let x =
            lib.sign_input provider
              (record s.public_psbt {
                inputs =
                    set_input core bitcoin index (clean_input core bitcoin input)
                      s.public_psbt.inputs;
              })
              index request.txdata (some (signing_rule core bitcoin utxo)) in
          Ensures-require (elim x.0 [ failed ↦ false | _ ↦ true ]) _
            λ _. Ensures-bind (or_throw (get_elem? x.1.inputs index) _) λ clean _.
              Ensures-then (check_scripts core bitcoin input clean) (
                returns (
                  refl,
                  refl,
                  refl,
                  raised s.fee_unverified _
                      (λ e. covers-unverified input request.missing_previous version e),
                )))
      where
        raised : {C : Type 0} (a b : Bool) → (b ≡ false → C) → (a || b ≡ true) ⊎ ((a ≡ false) × C)
        raised true b f = inl refl
        raised false true f = inl refl
        raised false false f = inr (refl, f refl)

    -- An open input whose signature would leave an amount uncovered is not let through.
    abbrev pub Guarded : PsbtInput core bitcoin → TxOut core → InputReview core bitcoin → Type 0
    Guarded input utxo seen =
        (is_some seen.position && not seen.finalized ≡ false)
        ⊎ ((p : Position) × (provider : core.Provider) × (script : core.Script) × (version : Option
              ℕ)
            × (seen.position ≡ some p)
            × (◌≡◌ {A = Result (core.Provider × core.Script)} (public_provider core policy p)
                (ok (provider, script)))
            × (witness_version core bitcoin utxo.script provider ≡ ok version)
            × CoversAmounts input request.missing_previous version)

    pub record Round (txin : TxIn core bitcoin) (input : PsbtInput core bitcoin) (utxo : TxOut core)
        (s s' : Progress core bitcoin lib) : Type 0 where
      pub seen : InputReview core bitcoin
      pub appended : s'.inputs ≡ s.inputs ++ (seen ∷ [])
      pub shown : Shows policy lib txin input utxo seen
      pub guarded :
          (s'.fee_unverified ≡ true) ⊎ ((s.fee_unverified ≡ false) × Guarded input utxo seen)
      pub counted : s'.recognized_inputs ≡ s.recognized_inputs + own_amount seen
      pub in_range : s'.recognized_inputs ≤ max_money

    unraised : {C : Type 0} (b : Bool) → C → (b ≡ true) ⊎ ((b ≡ false) × C)
    unraised true c = inl refl
    unraised false c = inr (refl, c)

    abbrev seen_of :
        TxIn core bitcoin
        → PsbtInput core bitcoin
        → TxOut core
        → Option Position
        → InputReview core bitcoin
    seen_of txin input utxo position = record {
      previous = txin.previous;
      amount = utxo.value;
      sequence = txin.sequence;
      position = position;
      finalized = lib.is_signed input;
      signing_rule =
          if is_some position && not (lib.is_signed input)
          then some (signing_rule core bitcoin utxo)
          else none;
      full_previous = is_some input.non_witness_utxo;
    }

    abbrev counted_state :
        TxIn core bitcoin
        → PsbtInput core bitcoin
        → TxOut core
        → Option Position
        → ℕ
        → Progress core bitcoin lib
        → Progress core bitcoin lib
    counted_state txin input utxo position total s = record s {
      recognized_inputs = total;
      inputs = s.inputs ++ (seen_of txin input utxo position ∷ []);
    }

    -- The rest of a round for an input of the policy.
    own_turn :
        (index : ℕ) (txin : TxIn core bitcoin) (input : PsbtInput core bitcoin) (utxo : TxOut core)
        (s : Progress core bitcoin lib) (position : Option Position) (p : Position)
        (provider : core.Provider) (version : Option ℕ) (total : ℕ)
        → position ≡ some p
        → s.recognized_inputs ≤ max_money
        → locate core policy utxo.script input.hd_keypaths input.tap_paths ≡ ok position
        → (public_provider core policy p >>= λ x. ok x.0) ≡ ok provider
        → witness_version core bitcoin utxo.script provider ≡ ok version
        → add_amount s.recognized_inputs utxo.value ≡ ok total
        → Ensures (Round txin input utxo s) (
            if lib.is_signed input
            then ok (counted_state txin input utxo position total s)
            else open_input core bitcoin lib request index input utxo provider version
                (counted_state txin input utxo position total s))
    own_turn index txin input utxo s position p provider version total own low a b c d =
        let (exact, high, _) = add_amount_exact s.recognized_inputs utxo.value total low d in
        let sum : total ≡ s.recognized_inputs + own_amount (seen_of txin input utxo position) =
          rw (own) exact in
        Ensures-if (lib.is_signed input)
          (λ final. returns (record {
            seen = seen_of txin input utxo position;
            appended = refl;
            shown = (a, refl, refl, refl, refl, refl);
            guarded = unraised s.fee_unverified (inl (rw (final, own) refl));
            counted = sum;
            in_range = high;
          }))
          (λ unsigned.
            Ensures-weaken
              (λ s' (same, total_same, _, safe). record {
                seen = seen_of txin input utxo position;
                appended = same;
                shown = (a, refl, refl, refl, refl, refl);
                guarded = elim safe [
                  | inl up ↦ inl up
                  | inr (was, covers) ↦
                      let (v, e, f) = >>=-eq-ok (public_provider core policy p) _ b in
                      let c' =
                        subst
                          (λ (x : core.Provider).
                            witness_version core bitcoin utxo.script x ≡ ok version)
                          (sym (ok-injective v.0 provider f)) c in
                      inr (was, inr (p, v.0, v.1, version, own, e, c', covers))
                ];
                counted = total_same ∙ sum;
                in_range = omega (arith, total_same, high);
              })
              (open_input_lem index input utxo provider version
                (counted_state txin input utxo position total s)))

    pub review_input_lem :
        (index : ℕ) (txin : TxIn core bitcoin) (input : PsbtInput core bitcoin) (utxo : TxOut core)
        (s : Progress core bitcoin lib)
        → s.recognized_inputs ≤ max_money
        → Ensures
            (Round txin input utxo s)
            (review_input core bitcoin lib policy request index txin input utxo s)
    unfolding review_input
    review_input_lem index txin input utxo s low =
        Ensures-bind (locate core policy utxo.script input.hd_keypaths input.tap_paths)
          λ position a. elim (Option-cases position) [
            | inl foreign ↦ rw (foreign) (
                Ensures-bind
                  (witness_version core bitcoin utxo.script (external_scripts core bitcoin input))
                  λ version _.
                    Ensures-require (is_some input.non_witness_utxo || is_some version) _ λ _.
                      returns (record {
                        seen = seen_of txin input utxo position;
                        appended = refl;
                        shown = (a, refl, refl, refl, refl, refl);
                        guarded = unraised s.fee_unverified (inl (rw (foreign) refl));
                        counted = rw (foreign) (omega arith);
                        in_range = low;
                      }))
            | inr (p, own) ↦ rw (own) (
                Ensures-bind (public_provider core policy p >>= λ x. ok x.0) λ provider b.
                  Ensures-bind (witness_version core bitcoin utxo.script provider) λ version c.
                    Ensures-require (is_some input.non_witness_utxo || is_some version) _ λ _.
                      Ensures-bind (add_amount s.recognized_inputs utxo.value) λ total d.
                        own_turn index txin input utxo s position p provider version total own low a
                          b c d)
          ]
