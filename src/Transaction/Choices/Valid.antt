-- ===== src/Transaction/Choices/Valid.antt =====
-- src/transaction.cpp, FindSigningWallets: what holds of the wallets that are offered.
use mathlib.Core.Path.{subst}
use thunderden.Base.{
  ℕ, ◌+◌, ◌≤◌, ◌≡◌, refl, sym, ap, ◌∙◌, ◌⊎◌, inl, inr, Bool, true, false, not, List, [], ◌∷◌, ◌++◌,
  Option, none, some, leb, ◌==◌, if◌then◌else◌, is_empty, length, replicate, ok, text_eq, Bytes,
  arith, leb→le, length-append, Bool-cases, Option-cases, All, All-append, Ensures, returns,
  Ensures-bind, Ensures-require, Ensures-if, Ensures-value, Ensures-weaken,
}
use thunderden.Core.{Core}
use thunderden.Keys.{Keys, root_fingerprint}
use thunderden.Policy.{Policy}
use thunderden.Policy.Owner.{authorized}
use thunderden.Policy.Positions.{Hint}
use thunderden.Policy.Standard.{default_policy}
use thunderden.Transaction.Library.{Bitcoin, PsbtInput, Psbts}
use thunderden.Transaction.Locate.{insert}
use thunderden.Transaction.Read.{PsbtData, read_psbt}
use thunderden.Transaction.Review.{review_transaction}
use thunderden.Transaction.Review.Authorized.{review-authorized}
use thunderden.Transaction.Pending.{pending_input_count}
use thunderden.Transaction.Discover.{discover_multisig}
use thunderden.Transaction.Choices.{
  Account, account_lt, hinted_account, SigningChoice, SigningChoices, ApprovedWallet, add_hints,
  gather_accounts, any_located, add_wallet, add_accounts, add_loaded, add_discovery,
  find_signing_wallets,
}

is_empty-nil : {A : Type 0} (l : List A) → is_empty l ≡ true → l ≡ []
is_empty-nil [] e = refl
is_empty-nil (x ∷ l) e = cc

-- A list after a choice with so many inputs: a choice with none is left out.
kept-or-added :
    {A : Type 0} (P : A → Type 0) (ws : List A) (w : A) (count : ℕ)
    → All P ws
    → (1 ≤ count → P w)
    → All P (if count == 0 then ws else ws ++ (w ∷ []))
      × (length (if count == 0 then ws else ws ++ (w ∷ [])) ≤ length ws + 1)
kept-or-added P ws w count h f = elim (Bool-cases (count == 0)) [
  | inl zero_left ↦ rw (zero_left) (h, omega arith)
  | inr left ↦
      let some_left : 1 ≤ count = ground (arith, left) in
      rw (left)
        (All-append P ws (w ∷ []) h (f some_left, tt), omega (arith, length-append ws (w ∷ [])))
]

module _ (core : Core) (bitcoin : Bitcoin core) (lib : Psbts core bitcoin) where
  module _ (session : Keys core) (mainnet : Bool) (chain : Bytes) where
    -- Where a wallet comes from: a default policy of this seed, which needs no registration, or the loaded one.
    abbrev pub Offered : Option (ApprovedWallet core bitcoin lib) → Policy core → Bytes → Type 0
    Offered loaded policy tag =
        ((a : Account) × (default_policy core session a.purpose a.number mainnet ≡ ok policy)
          × (tag ≡ replicate 32 0))
        ⊎ ((wallet : ApprovedWallet core bitcoin lib) × (loaded ≡ some wallet)
            × (wallet.policy ≡ policy)
            × (wallet.proof ≡ tag))

    -- A choice that is offered: authorized for this seed, for this request, with inputs left to sign.
    abbrev pub ValidChoice :
        Option (ApprovedWallet core bitcoin lib)
        → PsbtData core bitcoin lib
        → SigningChoice core bitcoin lib
        → Type 0
    ValidChoice loaded request w =
        (w.transaction.request ≡ request)
        × (authorized core w.transaction.policy session w.transaction.tag ≡ ok true)
        × Offered loaded w.transaction.policy w.transaction.tag
        × (pending_input_count core bitcoin lib w.transaction session ≡ ok w.inputs)
        × (1 ≤ w.inputs)

    -- Nothing but offered choices is in the list, and it has no setup yet.
    abbrev Offers :
        Option (ApprovedWallet core bitcoin lib)
        → PsbtData core bitcoin lib
        → SigningChoices core bitcoin lib
        → Type 0
    Offers loaded request c = All (ValidChoice loaded request) c.wallets × (c.setup ≡ none)

    add_wallet_lem :
        (loaded : Option (ApprovedWallet core bitcoin lib)) (request : PsbtData core bitcoin lib)
        (policy : Policy core) (tag : Bytes) (c : SigningChoices core bitcoin lib)
        → Offered loaded policy tag
        → Offers loaded request c
        → Ensures
            (λ (c' : SigningChoices core bitcoin lib).
              Offers loaded request c' × (length c'.wallets ≤ length c.wallets + 1))
            (add_wallet core bitcoin lib session mainnet chain request policy tag c)
    unfolding add_wallet
    add_wallet_lem loaded request policy tag c from (valid, empty) =
        Ensures-bind
          (any_located core bitcoin lib session mainnet chain policy request.psbt.inputs
            request.utxos)
          λ m _.
            Ensures-if (not m) (λ _. returns ((valid, empty), omega arith))
              (λ _.
                Ensures-bind (review_transaction core bitcoin lib request policy session tag chain)
                  λ t a. Ensures-bind (pending_input_count core bitcoin lib t session) λ count b.
                    let (x, y, z, w) =
                      Ensures-value
                        (review-authorized core bitcoin lib request policy session tag chain) t a in
                    let choice : SigningChoice core bitcoin lib = record {
                      transaction = t;
                      inputs = count;
                    } in
                    let (all_valid, few) =
                      kept-or-added (ValidChoice loaded request) c.wallets choice count valid
                        (λ some_left. (x, rw (y, z) w, rw (y, z) from, b, some_left)) in
                    returns ((all_valid, empty), few))

    add_accounts_lem :
        (loaded : Option (ApprovedWallet core bitcoin lib)) (request : PsbtData core bitcoin lib)
        (accounts : List Account) (c : SigningChoices core bitcoin lib)
        → Offers loaded request c
        → Ensures
            (λ (c' : SigningChoices core bitcoin lib).
              Offers loaded request c' × (length c'.wallets ≤ length c.wallets + length accounts))
            (add_accounts core bitcoin lib session mainnet chain request accounts c)
    unfolding add_accounts
    add_accounts_lem loaded request [] c offers = returns (offers, omega arith)
    add_accounts_lem loaded request (a ∷ accounts) c offers =
        Ensures-bind (default_policy core session a.purpose a.number mainnet) λ policy e.
          Ensures-bind
            (add_wallet core bitcoin lib session mainnet chain request policy (replicate 32 0) c)
            λ c' f.
              let (offers', few) =
                Ensures-value
                  (add_wallet_lem loaded request policy (replicate 32 0) c (inl (a, e, refl))
                    offers)
                  c' f in
              Ensures-weaken (λ c'' (offers'', few'). (offers'', omega (arith, few, few')))
                (add_accounts_lem loaded request accounts c' offers')

    add_loaded_lem :
        (loaded : Option (ApprovedWallet core bitcoin lib)) (request : PsbtData core bitcoin lib)
        (c : SigningChoices core bitcoin lib)
        → Offers loaded request c
        → Ensures
            (λ (c' : SigningChoices core bitcoin lib).
              Offers loaded request c' × (length c'.wallets ≤ length c.wallets + 1))
            (add_loaded core bitcoin lib session mainnet chain request loaded c)
    unfolding add_loaded
    add_loaded_lem none request c offers = returns (offers, omega arith)
    add_loaded_lem (some wallet) request c offers =
        add_wallet_lem (some wallet) request wallet.policy wallet.proof c
          (inr (wallet, refl, refl, refl)) offers

    few_accounts :
        (hints : List (Bytes × Hint)) (accounts : List Account)
        → length accounts ≤ 8
        → Ensures
            (λ (l : List Account). length l ≤ 8)
            (add_hints core bitcoin lib session mainnet chain hints accounts)
    unfolding add_hints
    few_accounts [] accounts few = returns few
    few_accounts ((key, hint) ∷ hints) accounts few =
        Ensures-if (text_eq (root_fingerprint core session) hint.fingerprint)
          (λ _. elim (Option-cases (hinted_account mainnet hint.path)) [
            | inl unknown ↦ rw (unknown) (few_accounts hints accounts few)
            | inr (a, known) ↦ rw (known) (
                Ensures-require (leb (length (insert account_lt a accounts)) 8) _ λ e.
                  few_accounts hints (insert account_lt a accounts)
                    (leb→le (length (insert account_lt a accounts)) 8 e))
          ])
          (λ _. few_accounts hints accounts few)

    few_gathered :
        (inputs : List (PsbtInput core bitcoin)) (accounts : List Account)
        → length accounts ≤ 8
        → Ensures
            (λ (l : List Account). length l ≤ 8)
            (gather_accounts core bitcoin lib session mainnet chain inputs accounts)
    unfolding gather_accounts
    few_gathered [] accounts few = returns few
    few_gathered (input ∷ inputs) accounts few =
        Ensures-require (leb (length input.hd_keypaths + length input.tap_paths) 128) _ λ _.
          Ensures-bind (add_hints core bitcoin lib session mainnet chain input.hd_keypaths accounts)
            λ a e.
              Ensures-bind (add_hints core bitcoin lib session mainnet chain input.tap_paths a)
                λ b f. few_gathered inputs b (
                  Ensures-value
                    (few_accounts input.tap_paths a
                      (Ensures-value (few_accounts input.hd_keypaths accounts few) a e))
                    b f)

    discovery_keeps :
        (request : PsbtData core bitcoin lib) (loaded : Option (ApprovedWallet core bitcoin lib))
        (c : SigningChoices core bitcoin lib)
        → Ensures
            (λ (c' : SigningChoices core bitcoin lib). c'.wallets ≡ c.wallets)
            (add_discovery core bitcoin lib session mainnet chain request loaded c)
    unfolding add_discovery
    discovery_keeps request loaded c =
        Ensures-bind (discover_multisig core bitcoin lib request session mainnet _ _)
          λ d _. returns refl

    -- What is found for a request: the choices it offers and whether a setup may be proposed.
    abbrev pub Found :
        Bytes → Option (ApprovedWallet core bitcoin lib) → SigningChoices core bitcoin lib → Type 0
    Found raw loaded c =
        (request : PsbtData core bitcoin lib) × (read_psbt core bitcoin lib raw ≡ ok request)
        × All (ValidChoice loaded request) c.wallets
        × (length c.wallets ≤ 9)
        × ((c.wallets ≡ []) ⊎ (c.setup ≡ none))

    -- Each wallet that is offered for a request is authorized for this seed, comes from a default policy of the seed or
    -- is the loaded wallet with its proof, and has inputs left to sign, as many as are shown. At most nine
    -- wallets are offered, and a new wallet is proposed only where none is offered.
    pub wallets_offered :
        (raw : Bytes) (loaded : Option (ApprovedWallet core bitcoin lib))
        (c : SigningChoices core bitcoin lib)
        → find_signing_wallets core bitcoin lib session mainnet chain raw loaded ≡ ok c
        → Found raw loaded c
    unfolding find_signing_wallets
    wallets_offered raw loaded = Ensures-value {P = Found raw loaded} (
        Ensures-bind (read_psbt core bitcoin lib raw) λ request read.
          let none_yet : SigningChoices core bitcoin lib = record {
            wallets = [];
            needs_wallet = true;
            multisig = false;
            setup = none;
          } in
          Ensures-if request.finalized (λ _. returns (request, read, tt, omega arith, inl refl))
            (λ _.
              Ensures-bind
                (gather_accounts core bitcoin lib session mainnet chain request.psbt.inputs [])
                λ accounts a.
                  let few : length accounts ≤ 8 =
                    Ensures-value (few_gathered request.psbt.inputs [] (omega arith)) accounts a in
                  Ensures-bind
                    (add_accounts core bitcoin lib session mainnet chain request accounts none_yet)
                    λ c b.
                      let (offers, n) =
                        Ensures-value (add_accounts_lem loaded request accounts none_yet (tt, refl))
                          c b in
                      Ensures-bind
                        (add_loaded core bitcoin lib session mainnet chain request loaded c)
                        λ c' d.
                          let (offers', n') =
                            Ensures-value (add_loaded_lem loaded request c offers) c' d in
                          Ensures-if (is_empty c'.wallets)
                            (λ nothing.
                              Ensures-weaken
                                (λ c'' same. (
                                  request,
                                  read,
                                  subst (All (ValidChoice loaded request)) (sym same) offers'.0,
                                  omega (arith, few, n, n', ap length same),
                                  inl (same ∙ is_empty-nil c'.wallets nothing),
                                ))
                                (discovery_keeps request loaded c'))
                            (λ _. returns (
                              request,
                              read,
                              offers'.0,
                              omega (arith, few, n, n'),
                              inr offers'.1,
                            ))))
