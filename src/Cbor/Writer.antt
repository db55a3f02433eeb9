-- ===== src/Cbor/Writer.antt =====
-- src/cbor.h, struct CborWriter: each method appends to `data` by a call of the CborLite library,
-- which is a parameter. `IsCanonical` is what its documentation says: shortest-form encodings.
use thunderden.Base.{ℕ, ◌<◌, ◌^◌, ◌≡◌, Bool, ◌++◌, if◌then◌else◌, length, Bytes}
use thunderden.Cbor.Encoding.{encode_head, encode_string}

pub record CborLite : Type 0 where
  pub encode_unsigned : Bytes → ℕ → Bytes
  pub encode_array_size : Bytes → ℕ → Bytes
  pub encode_map_size : Bytes → ℕ → Bytes
  pub encode_tag : Bytes → ℕ → Bytes
  pub encode_bool : Bytes → Bool → Bytes
  pub encode_bytes : Bytes → Bytes → Bytes
  pub encode_text : Bytes → Bytes → Bytes

pub record IsCanonical (lib : CborLite) : Type 0 where
  pub unsigned : (b : Bytes) (n : ℕ) → n < 2 ^ 64 → lib.encode_unsigned b n ≡ b ++ encode_head 0 n
  pub array_size :
      (b : Bytes) (n : ℕ) → n < 2 ^ 64 → lib.encode_array_size b n ≡ b ++ encode_head 4 n
  pub map_size : (b : Bytes) (n : ℕ) → n < 2 ^ 64 → lib.encode_map_size b n ≡ b ++ encode_head 5 n
  pub semantic : (b : Bytes) (n : ℕ) → n < 2 ^ 64 → lib.encode_tag b n ≡ b ++ encode_head 6 n
  pub boolean :
      (b : Bytes) (v : Bool) → lib.encode_bool b v ≡ b ++ encode_head 7 (if v then 21 else 20)
  pub byte_string :
      (b v : Bytes) → length v < 2 ^ 64 → lib.encode_bytes b v ≡ b ++ encode_string 2 v
  pub text_string : (b v : Bytes) → length v < 2 ^ 64 → lib.encode_text b v ≡ b ++ encode_string 3 v

pub record CborWriter : Type 0 where
  pub written : Bytes

module _ (lib : CborLite) where
  unfoldable pub u_int : CborWriter → ℕ → CborWriter
  u_int w n = record w { written = lib.encode_unsigned w.written n }

  unfoldable pub array : CborWriter → ℕ → CborWriter
  array w n = record w { written = lib.encode_array_size w.written n }

  unfoldable pub map : CborWriter → ℕ → CborWriter
  map w n = record w { written = lib.encode_map_size w.written n }

  unfoldable pub tag : CborWriter → ℕ → CborWriter
  tag w n = record w { written = lib.encode_tag w.written n }

  unfoldable pub bool : CborWriter → Bool → CborWriter
  bool w v = record w { written = lib.encode_bool w.written v }

  unfoldable pub bytes : CborWriter → Bytes → CborWriter
  bytes w v = record w { written = lib.encode_bytes w.written v }

  unfoldable pub text : CborWriter → Bytes → CborWriter
  text w v = record w { written = lib.encode_text w.written v }
