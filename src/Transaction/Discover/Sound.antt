-- ===== src/Transaction/Discover/Sound.antt =====
-- src/transaction.cpp, DiscoverMultisig: what is known of a wallet that is proposed.
use thunderden.Base.{
  ℕ, ◌≡◌, refl, ◌⊎◌, inl, inr, Bool, true, false, not, List, [], ◌∷◌, Option, none, some,
  if◌then◌else◌, is_some, is_empty, text_eq, ok, or_throw, Bytes, In, Bool-cases, Option-cases,
  Ensures, returns, Ensures-bind, Ensures-require, Ensures-if, Ensures-value,
}
use thunderden.Core.{Core}
use thunderden.Keys.{Keys}
use thunderden.Policy.{Policy}
use thunderden.Policy.Owner.{owned_keys, id}
use thunderden.Policy.Positions.{script}
use thunderden.Policy.Standard.{multisig_policy}
use thunderden.Transaction.Library.{Bitcoin, TxOut, PsbtInput, Psbts}
use thunderden.Transaction.Locate.{locate}
use thunderden.Transaction.Read.{PsbtData}
use thunderden.Transaction.Discover.{
  Discovery, Reading, unrelated, hinted, script_of, Cosigners, read_scripts, any_own,
  read_cosigners, sort_texts, rebuild, add_setup, wanted, discover_script, discover_input,
  discover_inputs, discover_multisig,
}

module _ (core : Core) (bitcoin : Bitcoin core) (lib : Psbts core bitcoin)
    (request : PsbtData core bitcoin lib) (session : Keys core) (mainnet : Bool) where
  -- A standard multisig policy that owns a key of this session and has the given script at a position.
  abbrev pub Reconstructs : core.Script → Policy core → Type 0
  Reconstructs output p =
      (script_type : ℕ) × (threshold : ℕ) × (keys : List Bytes) × (owned : List ℕ) × (branch : ℕ)
      × (index : ℕ) × (s : core.Script) × (multisig_policy core script_type threshold keys mainnet
          ≡ ok p)
      × (owned_keys core p session ≡ ok owned)
      × (is_empty owned ≡ false)
      × (script core p branch index ≡ ok s)
      × (core.script_eq s output ≡ true)

  -- A proposed policy reconstructs one of the outputs that are spent.
  abbrev pub IsSound : List (TxOut core) → Option (Policy core) → Type 0
  IsSound utxos setup =
      (setup ≡ none)
      ⊎ ((p : Policy core) × (u : TxOut core) × (setup ≡ some p)
          × In u utxos
          × Reconstructs u.script p)

  not-false : (b : Bool) → not b ≡ true → b ≡ false
  not-false true h = cc
  not-false false h = refl

  rebuild_lem :
      (script_type threshold : ℕ) (c : Cosigners core bitcoin lib request session mainnet)
      (output : core.Script)
      → Ensures
          (Reconstructs output)
          (rebuild core bitcoin lib request session mainnet script_type threshold c output)
  unfolding rebuild
  rebuild_lem script_type threshold c output =
      Ensures-bind (multisig_policy core script_type threshold (sort_texts c.account_keys) mainnet)
        λ p a. Ensures-bind (owned_keys core p session) λ owned b.
          Ensures-require (not (is_empty owned)) _ λ some_key.
            Ensures-bind (or_throw c.position _) λ position _.
              Ensures-bind (script core p position.branch position.index) λ s d.
                Ensures-require (core.script_eq s output) _ λ same. returns (
                  script_type,
                  threshold,
                  sort_texts c.account_keys,
                  owned,
                  position.branch,
                  position.index,
                  s,
                  a,
                  b,
                  not-false (is_empty owned) some_key,
                  d,
                  same,
                )

  add_setup_lem :
      (utxos : List (TxOut core)) (p : Policy core) (u : TxOut core)
      (d : Discovery core bitcoin lib)
      → In u utxos
      → Reconstructs u.script p
      → IsSound utxos d.setup
      → IsSound utxos (add_setup core bitcoin lib request session mainnet p d).setup
  unfolding add_setup
  add_setup_lem utxos p u d at built sound = elim (Option-cases d.setup) [
    | inl e ↦ rw (e) (inr (p, u, refl, at, built))
    | inr (q, e) ↦ elim (Bool-cases (text_eq (id core q) (id core p))) [
      | inl same ↦ rw (e, same) (inr (p, u, refl, at, built))
      | inr other ↦ (let sound' = rw (e) at sound in rw (e, other) sound')
    ]
  ]

  discover_script_lem :
      (utxos : List (TxOut core)) (input : PsbtInput core bitcoin) (u : TxOut core)
      (code : core.Script) (script_type : ℕ) (d : Discovery core bitcoin lib)
      → In u utxos
      → IsSound utxos d.setup
      → Ensures
          (λ (d' : Discovery core bitcoin lib). IsSound utxos d'.setup)
          (discover_script core bitcoin lib request session mainnet input u.script code script_type
            d)
  unfolding discover_script
  discover_script_lem utxos input u code script_type d at sound =
      elim (Option-cases (bitcoin.multisig code)) [
        | inl e ↦ rw (e, discover_script) (returns sound)
        | inr (m, e) ↦
            rw (e, discover_script)
              (Ensures-bind (any_own core bitcoin lib request session mainnet input.hd_keypaths m.1)
                λ ours _.
                  Ensures-if (not ours) (λ _. returns sound)
                    (λ _.
                      Ensures-bind
                        (read_cosigners core bitcoin lib request session mainnet script_type
                          input.hd_keypaths m.1
                          (record {
                            account_keys = [];
                            position = none;
                            complete = true;
                            previous = none;
                          }))
                        λ c _.
                          Ensures-if (not c.complete) (λ _. returns sound)
                            (λ _.
                              Ensures-bind
                                (rebuild core bitcoin lib request session mainnet script_type m.0 c
                                  u.script)
                                λ p built. returns (
                                  add_setup_lem utxos p u
                                    (wanted core bitcoin lib request session mainnet d) at
                                    (Ensures-value (rebuild_lem script_type m.0 c u.script) p built)
                                    sound))))
      ]

  discover_input_lem :
      (utxos : List (TxOut core)) (loaded : Option (Policy core)) (input : PsbtInput core bitcoin)
      (u : TxOut core) (d : Discovery core bitcoin lib)
      → In u utxos
      → IsSound utxos d.setup
      → Ensures
          (λ (d' : Discovery core bitcoin lib). IsSound utxos d'.setup)
          (discover_input core bitcoin lib request session mainnet loaded input u.script d)
  unfolding discover_input
  discover_input_lem utxos loaded input u d at sound =
      Ensures-if (lib.is_signed input) (λ _. returns sound)
        (λ _.
          Ensures-bind
            (elim loaded [
              | none ↦ ok none
              | some policy ↦ locate core policy u.script input.hd_keypaths input.tap_paths
            ])
            λ known _.
              Ensures-if (is_some known) (λ _. returns sound)
                (λ _.
                  Ensures-bind
                    (read_scripts core bitcoin lib request session mainnet input u.script)
                    λ reading _. by_reading reading))
    where
      by_reading :
          (r : Reading core bitcoin lib request session mainnet)
          → Ensures
              (λ (d' : Discovery core bitcoin lib). IsSound utxos d'.setup)
              (elim r [
                | unrelated ↦ ok d
                | hinted h ↦ ok (if h then wanted core bitcoin lib request session mainnet d else d)
                | script_of code script_type ↦
                    discover_script core bitcoin lib request session mainnet input u.script code
                      script_type d
              ])
      by_reading unrelated = returns sound
      by_reading (hinted true) = returns sound
      by_reading (hinted false) = returns sound
      by_reading (script_of code script_type) =
          discover_script_lem utxos input u code script_type d at sound

  discover_inputs_lem :
      (all_utxos : List (TxOut core)) (loaded : Option (Policy core))
      (inputs : List (PsbtInput core bitcoin)) (utxos : List (TxOut core))
      (d : Discovery core bitcoin lib)
      → ((u : TxOut core) → In u utxos → In u all_utxos)
      → IsSound all_utxos d.setup
      → Ensures
          (λ (d' : Discovery core bitcoin lib). IsSound all_utxos d'.setup)
          (discover_inputs core bitcoin lib request session mainnet loaded inputs utxos d)
  unfolding discover_inputs
  discover_inputs_lem all_utxos loaded [] utxos d within sound = returns sound
  discover_inputs_lem all_utxos loaded (i ∷ inputs) [] d within sound = returns sound
  discover_inputs_lem all_utxos loaded (i ∷ inputs) (u ∷ utxos) d within sound =
      Ensures-bind (discover_input core bitcoin lib request session mainnet loaded i u.script d)
        λ d' e.
          discover_inputs_lem all_utxos loaded inputs utxos d' (λ v h. within v (inr h))
            (Ensures-value (discover_input_lem all_utxos loaded i u d (within u (inl refl)) sound)
              d' e)

  -- From a state with no proposal, a wallet that discovery proposes is a standard multisig policy that
  -- owns a key of this session and has, at a position, the script of an output that the request
  -- spends.
  pub proposed_wallet :
      (loaded : Option (Policy core)) (d d' : Discovery core bitcoin lib)
      → d.setup ≡ none
      → discover_multisig core bitcoin lib request session mainnet loaded d ≡ ok d'
      → IsSound request.utxos d'.setup
  unfolding discover_multisig
  proposed_wallet loaded d d' fresh =
      Ensures-value {P = λ (x : Discovery core bitcoin lib). IsSound request.utxos x.setup}
        (Ensures-bind
          (discover_inputs core bitcoin lib request session mainnet loaded request.psbt.inputs
            request.utxos d)
          λ x e.
            let sound =
              Ensures-value
                (discover_inputs_lem request.utxos loaded request.psbt.inputs request.utxos d
                  (λ u h. h) (inl fresh))
                x e in
            elim (Bool-cases x.ambiguous) [
              | inl two ↦ rw (two) (returns (inl refl))
              | inr one ↦ rw (one) (returns sound)
            ])
        d'
