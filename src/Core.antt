-- ===== src/Core.antt =====
-- What the program takes from Bitcoin Core: extended keys, descriptors and text codes. Each field is
-- the call of that name; `none` is a call that returns false, and a `Result` one that throws.
use thunderden.Base.{ℕ, Bool, List, Option, Bytes}

pub record Core : Type 1 where
  -- CExtKey and CExtPubKey.
  pub ExtKey : Type 0
  pub ExtPubKey : Type 0
  pub derive : ExtKey → ℕ → Option ExtKey
  pub neuter : ExtKey → ExtPubKey
  pub key_id : ExtKey → Bytes
  pub ext_eq : ExtPubKey → ExtPubKey → Bool
  pub depth : ExtPubKey → ℕ
  pub child : ExtPubKey → ℕ
  pub pubkey : ExtPubKey → Bytes
  pub is_fully_valid : Bytes → Bool
  -- The 74 bytes behind the version, and the key of 78 bytes.
  pub encode : ExtPubKey → Bytes
  pub decode_with_version : Bytes → ExtPubKey
  pub encode_base58check : Bytes → Bytes
  pub decode_base58check : Bytes → ℕ → Option Bytes
  pub is_hex : Bytes → Bool
  pub parse_hex : Bytes → Bytes
  pub hex_str : Bytes → Bytes
  pub sha256 : Bytes → Bytes
  pub hmac_sha256 : Bytes → Bytes → Bytes
  -- Descriptors. `parse` returns them with whether private keys came with them.
  pub Descriptor : Type 0
  pub Script : Type 0
  pub Provider : Type 0
  pub parse : Bytes → List Descriptor × Bool
  pub is_range : Descriptor → Bool
  pub is_solvable : Descriptor → Bool
  pub is_single_type : Descriptor → Bool
  pub has_warnings : Descriptor → Bool
  pub key_count : Descriptor → ℕ
  pub bare_keys : Descriptor → List Bytes
  pub extended_keys : Descriptor → List ExtPubKey
  pub expand : Descriptor → ℕ → Option (Provider × List Script)
  pub descriptor_checksum : Bytes → Bytes
  pub script_eq : Script → Script → Bool
  -- Private keys are put into a provider by the accounts' key identifiers.
  pub expand_private : Descriptor → ℕ → List (Bytes × ExtKey) → Provider → Provider
  pub has_private_keys : Provider → Bool
