-- ===== src/Policy/Build.antt =====
-- src/policy.cpp, Policy::Policy: the checks of a policy in the order of the constructor.
pub mod Accepted
use thunderden.Base.{
  ℕ, zero, suc, ◌+◌, Bool, true, false, not, ◌&&◌, ◌||◌, List, [], ◌∷◌, ◌++◌, map, Option, none,
  some, leb, ltb, ◌==◌, length, all, any, is_empty, Result, ok, err, ◌>>=◌, ◌>>◌, require, codes,
  starts_with, text_eq, Bytes, if◌then◌else◌,
}
use thunderden.Core.{Core}
use thunderden.Policy.{KeyInfo, Policy}
use thunderden.Policy.KeyText.{read_key}
use thunderden.Policy.Template.{Scan, scan, initial}

abbrev pub is_name_char : ℕ → Bool
is_name_char c = leb 0x20 c && leb c 0x7e

abbrev pub first_is : ℕ → Bytes → Bool
first_is c [] = false
first_is c (x ∷ s) = x == c

abbrev pub last_is : ℕ → Bytes → Bool
last_is c [] = false
last_is c (x ∷ []) = x == c
last_is c (x ∷ (y ∷ s)) = last_is c (y ∷ s)

-- std::string::find(part) != npos.
abbrev pub occurs : Bytes → Bytes → Bool
occurs part [] = is_empty part
occurs part (c ∷ s) = starts_with (c ∷ s) part || occurs part s

unfoldable pub is_wrapper : Bytes → Bool
is_wrapper text =
    starts_with text (codes "pkh(")
    || (starts_with text (codes "wpkh(")
        || (starts_with text (codes "sh(")
            || (starts_with text (codes "wsh(") || starts_with text (codes "tr("))))

-- The checks that need no parsing.
unfoldable pub header : Bytes → Bytes → ℕ → Result (Unit {0})
header name text key_count = do
  require (leb (length name) 64 && all is_name_char name) "Invalid wallet name"
  require (is_empty name || (not (first_is b' ' name) && not (last_is b' ' name)))
      "Invalid wallet name spacing"
  require (not (is_empty text) && leb (length text) 8192) "Invalid policy length"
  require (ltb 0 key_count && leb key_count 32) "Policy requires 1 through 32 keys"
  require (is_wrapper text) "Unsupported account wrapper"
  require (not (starts_with text (codes "sh(pk("))) "Bare pk inside sh is not a BIP388 account"
  require (not (occurs (codes "musig(") text)) "MuSig2 is not supported"

module _ (core : Core) where
  unfoldable pub has_pubkey : Bytes → List (KeyInfo core) → Bool
  has_pubkey k [] = false
  has_pubkey k (i ∷ l) = text_eq (core.pubkey i.key) k || has_pubkey k l

  -- The loop over the keys: each is read, and its public key must be new.
  unfoldable pub read_keys : List (KeyInfo core) → List Bytes → Bool → Result (List (KeyInfo core))
  read_keys done [] mainnet = ok done
  read_keys done (text ∷ texts) mainnet = do
    info ← read_key core text mainnet
    require (not (has_pubkey (core.pubkey info.key) done)) "Duplicate policy public key"
    read_keys (done ++ (info ∷ [])) texts mainnet

  -- Equality of std::set<CExtPubKey>: the same members.
  unfoldable pub has_key : core.ExtPubKey → List core.ExtPubKey → Bool
  has_key k [] = false
  has_key k (x ∷ l) = core.ext_eq x k || has_key k l

  unfoldable pub same_keys : List core.ExtPubKey → List core.ExtPubKey → Bool
  same_keys a b = all (λ k. has_key k b) a && all (λ k. has_key k a) b

  unfoldable pub key_of : KeyInfo core → core.ExtPubKey
  key_of i = i.key

  unfoldable pub check_descriptor : ℕ → List (KeyInfo core) → core.Descriptor → Result (Unit {0})
  check_descriptor references keys d = do
    require (core.is_range d && (core.is_solvable d && core.is_single_type d))
        "Invalid account descriptor"
    require (not (core.has_warnings d)) "Core reported an unsafe descriptor"
    require (core.key_count d == references) "Every key must use a policy reference"
    require (is_empty (core.bare_keys d) && same_keys (core.extended_keys d) (map key_of keys))
        "Unexpected descriptor key"

  unfoldable pub check_descriptors :
      ℕ → List (KeyInfo core) → List core.Descriptor → Result (Unit {0})
  check_descriptors references keys [] = ok tt
  check_descriptors references keys (d ∷ ds) = do
    check_descriptor references keys d
    check_descriptors references keys ds

  unfoldable pub text_of : KeyInfo core → Bytes
  text_of i = i.text

  -- Two public descriptors, receive and change, with the keys that the text names and no other.
  unfoldable pub build : Bytes → Bytes → List Bytes → Bool → Result (Policy core)
  build name text key_texts mainnet = do
    header name text (length key_texts)
    keys ← read_keys [] key_texts mainnet
    s ← scan (map text_of keys) (length text) (initial text)
    require (is_empty s.nesting && length s.seen == length keys) "Incomplete policy or unused keys"
    require (leb (length s.expanded) 65536) "Expanded policy is too large"
    let (descriptors, private_keys) = core.parse s.expanded
    require (length descriptors == 2 && not private_keys) "Invalid public receive/change policy"
    check_descriptors (length s.references) keys descriptors
    ok (record {
      name = name;
      text = text;
      public_text = s.expanded;
      keys = keys;
      references = s.references;
      descriptors = descriptors;
      mainnet = mainnet;
    })
