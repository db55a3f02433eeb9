-- ===== src/Policy/Standard.antt =====
-- src/policy.cpp, DefaultPolicy, MultisigAccountPath and MultisigPolicy: the policies that the program makes.
pub mod Multisig
use thunderden.Base.{
  ℕ, zero, suc, ◌+◌, Bool, true, false, ◌&&◌, ◌||◌, List, [], ◌∷◌, ◌++◌, leb, ltb, ◌==◌,
  if◌then◌else◌, length, drop, Result, ok, err, ◌>>=◌, ◌>>◌, require, codes, Bytes,
}
use thunderden.Core.{Core}
use thunderden.Decimal.{to_string}
use thunderden.Keys.{Keys, hardened, path_text, public_at, root_fingerprint, encode_public}
use thunderden.Policy.{KeyInfo, Policy}
use thunderden.Policy.Build.{build}
use thunderden.Policy.Owner.{coin}

pub default_text : ℕ → Result Bytes
default_text purpose =
    if purpose == 44
    then ok (codes "pkh(@0/**)")
    else if purpose == 49
    then ok (codes "sh(wpkh(@0/**))")
    else if purpose == 84
    then ok (codes "wpkh(@0/**)")
    else if purpose == 86
    then ok (codes "tr(@0/**)")
    else err "Unsupported default account type"

pub default_path : ℕ → ℕ → Bool → List ℕ
default_path purpose account mainnet =
    (hardened + purpose) ∷ coin mainnet ∷ (hardened + account) ∷ []

-- `==` of two paths.
abbrev pub path_eq : List ℕ → List ℕ → Bool
path_eq [] [] = true
path_eq [] (b ∷ bs) = false
path_eq (a ∷ as') [] = false
path_eq (a ∷ as') (b ∷ bs) = a == b && path_eq as' bs

-- 0 is the legacy layout, 1 and 2 are nested and native SegWit.
unfoldable pub multisig_account_path : List ℕ → ℕ → Bool → Bool
multisig_account_path path zero mainnet = path_eq path (0x8000_002d ∷ [])
multisig_account_path (a ∷ (b ∷ (c ∷ (d ∷ [])))) (suc t) mainnet =
    leb (suc t) 2
    && (a == 0x8000_0030 && (b == coin mainnet && (leb hardened c && d == hardened + suc t)))
multisig_account_path path (suc t) mainnet = false

wrapper : ℕ → Bytes
wrapper zero = codes "sh("
wrapper (suc zero) = codes "sh(wsh("
wrapper (suc (suc t)) = codes "wsh("

script_name : ℕ → Bytes
script_name zero = codes "Legacy"
script_name (suc zero) = codes "Nested SegWit"
script_name (suc (suc t)) = codes "Native SegWit"

-- `,@i/**` for each key from `i` on.
key_references : ℕ → ℕ → Bytes
key_references i zero = []
key_references i (suc n) = codes ",@" ++ (to_string i ++ (codes "/**" ++ key_references (i + 1) n))

unfoldable pub multisig_name : ℕ → ℕ → ℕ → Bytes
unfolding script_name
multisig_name script_type threshold count =
    script_name script_type
    ++ (codes " multisig ("
        ++ (to_string threshold ++ (codes " of " ++ (to_string count ++ codes ")"))))

unfoldable pub multisig_text : ℕ → ℕ → ℕ → Bytes
unfolding wrapper key_references
multisig_text script_type threshold count =
    wrapper script_type
    ++ (codes "sortedmulti("
        ++ (to_string threshold
            ++ (key_references 0 count ++ (if script_type == 1 then codes ")))" else codes "))"))))

module _ (core : Core) where
  -- The key text of an account of this session.
  unfoldable pub account_text : Keys core → List ℕ → core.ExtPubKey → Bool → Bytes
  account_text keys path key mainnet =
      codes "["
      ++ (core.hex_str (root_fingerprint core keys)
          ++ (drop 1 (path_text path) ++ (codes "]" ++ encode_public core key mainnet)))

  pub default_policy : Keys core → ℕ → ℕ → Bool → Result (Policy core)
  default_policy keys purpose account mainnet = do
    require (leb account 100) "Default account exceeds 100"
    text ← default_text purpose
    key ← public_at core keys (default_path purpose account mainnet)
    build core [] text (account_text keys (default_path purpose account mainnet) key mainnet ∷ [])
        mainnet

  unfoldable pub last_or_zero : List ℕ → ℕ
  last_or_zero [] = 0
  last_or_zero (a ∷ []) = a
  last_or_zero (a ∷ (b ∷ path)) = last_or_zero (b ∷ path)

  -- Key metadata that agrees with the origin that the key states.
  unfoldable pub is_multisig_key : ℕ → Bool → KeyInfo core → Bool
  unfolding last_or_zero
  is_multisig_key script_type mainnet key =
      key.has_origin
      && (multisig_account_path key.origin script_type mainnet
          && (core.depth key.key == length key.origin
              && core.child key.key == last_or_zero key.origin))

  unfoldable pub check_origins : ℕ → Bool → List (KeyInfo core) → Result (Unit {0})
  check_origins script_type mainnet [] = ok tt
  check_origins script_type mainnet (key ∷ keys) = do
    require (is_multisig_key script_type mainnet key) "Inconsistent multisig account origin"
    check_origins script_type mainnet keys

  unfoldable pub multisig_policy : ℕ → ℕ → List Bytes → Bool → Result (Policy core)
  multisig_policy script_type threshold keys mainnet = do
    require
        (leb script_type 2
          && (leb 2 (length keys)
              && (leb (length keys) (if script_type == 0 then 15 else 20)
                  && (ltb 0 threshold && leb threshold (length keys)))))
        "Invalid multisig type, threshold or key count"
    policy ←
        build core (multisig_name script_type threshold (length keys))
          (multisig_text script_type threshold (length keys)) keys mainnet
    check_origins script_type mainnet policy.keys
    ok policy
