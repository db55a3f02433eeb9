-- ===== src/Policy/Standard/Multisig.antt =====
-- What `MultisigPolicy` requires of the keys of a wallet that it makes.
use thunderden.Base.{
  ℕ, zero, suc, ◌+◌, ◌-◌, ◌≤◌, ◌≡◌, refl, ap, ◌⊎◌, inl, inr, Bool, true, ◌&&◌, List, [], ◌∷◌, leb,
  ltb, ◌==◌, ==_iff, if◌then◌else◌, length, Result, ok, Bytes, All, and-true, leb→le, arith,
  Ensures, returns, throws, Ensures-bind, Ensures-require, Ensures-seq, Ensures-value,
}
use thunderden.Core.{Core}
use thunderden.Keys.{hardened}
use thunderden.Policy.{KeyInfo, Policy}
use thunderden.Policy.Build.{build}
use thunderden.Policy.Build.Accepted.{IsWellFormed, build-Ensures}
use thunderden.Policy.Owner.{coin}
use thunderden.Policy.Standard.{
  path_eq, multisig_account_path, multisig_name, multisig_text, last_or_zero, is_multisig_key,
  check_origins, multisig_policy,
}

-- The account of a multisig wallet: m/45', or BIP 48 with an account and a script type.
abbrev pub IsAccountPath : ℕ → Bool → List ℕ → Type 0
IsAccountPath script_type mainnet path =
    ((script_type ≡ 0) × (path ≡ (hardened + 45) ∷ []))
    ⊎ ((1 ≤ script_type)
        × (account : ℕ) × (path
            ≡ (hardened + 48)
              ∷ coin mainnet
              ∷ (hardened + account)
              ∷ (hardened + script_type)
              ∷ []))

path_eq→eq : (a b : List ℕ) → path_eq a b ≡ true → a ≡ b
path_eq→eq [] [] h = refl
path_eq→eq [] (b ∷ bs) h = cc
path_eq→eq (a ∷ as') [] h = cc
path_eq→eq (a ∷ as') (b ∷ bs) h = ground (arith, path_eq→eq as' bs)

account_path :
    (script_type : ℕ) (mainnet : Bool) (path : List ℕ)
    → multisig_account_path path script_type mainnet ≡ true
    → IsAccountPath script_type mainnet path
unfolding multisig_account_path
account_path zero mainnet path h = inl (refl, path_eq→eq _ _ h)
account_path (suc t) mainnet [] h = cc
account_path (suc t) mainnet (a ∷ []) h = cc
account_path (suc t) mainnet (a ∷ (b ∷ [])) h = cc
account_path (suc t) mainnet (a ∷ (b ∷ (c ∷ []))) h = cc
account_path (suc t) mainnet (a ∷ (b ∷ (c ∷ (d ∷ [])))) h =
    let (_, h1) = and-true (leb (suc t) 2) _ h in
    let (ha, h2) = and-true (a == 0x8000_0030) _ h1 in
    let (hb, h3) = and-true (b == coin mainnet) _ h2 in
    let (hc, hd) = and-true (leb hardened c) (d == hardened + suc t) h3 in
    let le : hardened ≤ c = leb→le hardened c hc in
    let third : c ≡ hardened + (c - hardened) = omega (arith, le) in
    inr (
      omega arith,
      c - hardened,
      rw
          (
            (==_iff a 0x8000_0030).0 ha,
            (==_iff b (coin mainnet)).0 hb,
            (==_iff d (hardened + suc t)).0 hd,
          )
          (ap (λ u. (hardened + 48) ∷ coin mainnet ∷ u ∷ (hardened + suc t) ∷ []) third),
    )
account_path (suc t) mainnet (a ∷ (b ∷ (c ∷ (d ∷ (e ∷ path))))) h = cc

module _ (core : Core) where
  -- A key whose metadata agrees with the account that it states.
  pub record IsMultisigKey (script_type : ℕ) (mainnet : Bool) (key : KeyInfo core) : Type 0 where
    pub has_origin : key.has_origin ≡ true
    pub account : IsAccountPath script_type mainnet key.origin
    pub depth : core.depth key.key ≡ length key.origin
    pub child : core.child key.key ≡ last_or_zero core key.origin

  multisig_key :
      (script_type : ℕ) (mainnet : Bool) (key : KeyInfo core)
      → is_multisig_key core script_type mainnet key ≡ true
      → IsMultisigKey script_type mainnet key
  unfolding is_multisig_key
  multisig_key script_type mainnet key h =
      let (origin, h1) = and-true _ _ h in
      let (path, h2) = and-true _ _ h1 in
      let (depth, child) = and-true _ _ h2 in
      record {
        has_origin = origin;
        account = account_path script_type mainnet key.origin path;
        depth = (==_iff _ _).0 depth;
        child = (==_iff _ _).0 child;
      }

  check_origins-All :
      (script_type : ℕ) (mainnet : Bool) (keys : List (KeyInfo core))
      → Ensures
          (λ (u : Unit {0}). All (IsMultisigKey script_type mainnet) keys)
          (check_origins core script_type mainnet keys)
  unfolding check_origins
  check_origins-All script_type mainnet [] = returns {a = tt} tt
  check_origins-All script_type mainnet (key ∷ keys) =
      Ensures-require (is_multisig_key core script_type mainnet key) _ λ one.
        Ensures-here (check_origins core script_type mainnet keys)
          (multisig_key script_type mainnet key one) (check_origins-All script_type mainnet keys)
    where
      Ensures-here :
          (r : Result (Unit {0}))
          → IsMultisigKey script_type mainnet key
          → Ensures (λ (u : Unit {0}). All (IsMultisigKey script_type mainnet) keys) r
          → Ensures (λ (u : Unit {0}). All (IsMultisigKey script_type mainnet) (key ∷ keys)) r
      Ensures-here r one (returns {a = a} all) = returns {a = a} (one, all)
      Ensures-here r one throws = throws

  -- A multisig policy that is returned is well formed, has a known script type, a threshold of 1 to its
  -- number of keys, at least two keys and the sorted multisig text; and every key states the account
  -- m/45' or the BIP 48 account of that script type, at that depth and child number.
  pub multisig_accepted :
      (script_type threshold : ℕ) (keys : List Bytes) (mainnet : Bool) (p : Policy core)
      → multisig_policy core script_type threshold keys mainnet ≡ ok p
      → IsWellFormed core p
        × (script_type ≤ 2)
        × (1 ≤ threshold)
        × (threshold ≤ length p.keys)
        × (2 ≤ length p.keys)
        × (p.text ≡ multisig_text script_type threshold (length keys))
        × All (IsMultisigKey script_type mainnet) p.keys
  unfolding multisig_policy
  multisig_accepted script_type threshold keys mainnet p h = Ensures-value (go) p h
    where
      go :
          Ensures
            (λ (p : Policy core).
              IsWellFormed core p
              × (script_type ≤ 2)
              × (1 ≤ threshold)
              × (threshold ≤ length p.keys)
              × (2 ≤ length p.keys)
              × (p.text ≡ multisig_text script_type threshold (length keys))
              × All (IsMultisigKey script_type mainnet) p.keys)
            (multisig_policy core script_type threshold keys mainnet)
      go =
          Ensures-require
            (leb script_type 2
              && (leb 2 (length keys)
                  && (leb (length keys) (if script_type == 0 then 15 else 20)
                      && (ltb 0 threshold && leb threshold (length keys)))))
            _
            λ guard.
              Ensures-bind
                (build core (multisig_name script_type threshold (length keys))
                  (multisig_text script_type threshold (length keys)) keys mainnet)
                λ policy built.
                  Ensures-seq (check_origins core script_type mainnet policy.keys) λ checked.
                    let (well, count, _, text) =
                      Ensures-value (build-Ensures core _ _ keys mainnet) policy built in
                    let (g0, g1) = and-true (leb script_type 2) _ guard in
                    let (g2, g3) = and-true (leb 2 (length keys)) _ g1 in
                    let (_, g4) =
                      and-true (leb (length keys) (if script_type == 0 then 15 else 20)) _ g3 in
                    let (g5, g6) = and-true (ltb 0 threshold) (leb threshold (length keys)) g4 in
                    let b2 : 2 ≤ length keys = leb→le 2 (length keys) g2 in
                    let b6 : threshold ≤ length keys = leb→le threshold (length keys) g6 in
                    returns {a = policy} (
                      well,
                      leb→le script_type 2 g0,
                      ground arith,
                      omega (arith, count, b6),
                      omega (arith, count, b2),
                      text,
                      Ensures-value (check_origins-All script_type mainnet policy.keys) tt checked,
                    )
