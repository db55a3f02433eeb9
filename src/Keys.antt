-- ===== src/Keys.antt =====
-- src/keys.h and src/keys.cpp: derivation paths and the keys of a session. Wiping of secrets has no
-- counterpart: values here have no storage.
use thunderden.Base.{
  ℕ, ◌/◌, ◌%◌, Bool, false, List, [], ◌∷◌, ◌++◌, leb, ◌==◌, if◌then◌else◌, length, take, Result, ok,
  ◌>>=◌, ◌>>◌, require, or_throw, codes, text_eq, Bytes,
}
use thunderden.Core.{Core}
use thunderden.Decimal.{to_string}

-- 0x80000000, the bit of a hardened index.
abbrev pub hardened : ℕ
hardened = 0x8000_0000

abbrev pub is_hardened : ℕ → Bool
is_hardened index = index / hardened % 2 == 1

-- One round of the loop of `PathText`.
unfoldable pub step_text : ℕ → Bytes
step_text index =
    b'/' ∷ (to_string (index % hardened) ++ (if is_hardened index then codes "h" else []))

unfoldable pub steps_text : List ℕ → Bytes
unfolding step_text
steps_text [] = []
steps_text (index ∷ path) = step_text index ++ steps_text path

unfoldable pub path_text : List ℕ → Bytes
unfolding steps_text
path_text path = b'm' ∷ steps_text path

module _ (core : Core) where
  pub record Keys : Type 0 where
    pub root : core.ExtKey
    pub registration_key : Bytes

  unfoldable pub derive_from : core.ExtKey → List ℕ → Result core.ExtKey
  derive_from key [] = ok key
  derive_from key (index ∷ path) = do
    child ← or_throw (core.derive key index) "Child derivation failed"
    derive_from child path

  unfoldable pub derive : Keys → List ℕ → Result core.ExtKey
  unfolding derive_from
  derive keys path = do
    require (leb (length path) 255) "Derivation path exceeds maximum depth"
    derive_from keys.root path

  unfoldable pub public_at : Keys → List ℕ → Result core.ExtPubKey
  public_at keys path = do key ← derive keys path; ok (core.neuter key)

  unfoldable pub root_fingerprint : Keys → Bytes
  root_fingerprint keys = take 4 (core.key_id keys.root)

  abbrev pub version_bytes : Bool → Bytes
  version_bytes mainnet =
      if mainnet then 0x04 ∷ 0x88 ∷ 0xB2 ∷ 0x1E ∷ [] else 0x04 ∷ 0x35 ∷ 0x87 ∷ 0xCF ∷ []

  unfoldable pub encode_public : core.ExtPubKey → Bool → Bytes
  encode_public key mainnet = core.encode_base58check (version_bytes mainnet ++ core.encode key)

  unfoldable pub registration_tag : Keys → Bytes → Bytes
  registration_tag keys id = core.hmac_sha256 keys.registration_key id

  unfoldable pub verify_tag : Keys → Bytes → Bytes → Bool
  verify_tag keys id tag =
      if length tag == 32 then text_eq (registration_tag keys id) tag else false
