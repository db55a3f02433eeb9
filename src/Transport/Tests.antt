-- ===== src/Transport/Tests.antt =====
-- Scans and replies at concrete values. The codecs stand for the libraries of src/transport.cpp.
use thunderden.Base.{
  ℕ, ◌-◌, ◌*◌, ◌≤◌, ◌<◌, ◌^◌, ◌≡◌, ◌⊎◌, ◌↔◌, refl, true, not, [], ◌∷◌, ◌++◌, map, length, all,
  Bytes, ok, codes, arith, is_lower, to_lower,
}
use thunderden.Cbor.Encoding.{encode_head, encode_string}
use thunderden.Cbor.Tests.{cbor_lite, cbor_lite-IsCanonical}
use thunderden.Decimal.{to_string}
use thunderden.Transport.{QrMessage, number, cbor_bytes, unwrap_bytes, max_qr_text, max_ur_parts}
use thunderden.Transport.Payload.{unwrap_bytes-cbor_bytes, unwrap_bytes_canonical, number_canonical}
use thunderden.Transport.Sender.{
  is_outgoing, fragment_size, UrEncoder, next, fragment_size_exists, fragment_size_bounds,
  next_reads_back,
}

unwrap_bytes-cbor_bytes_example : unwrap_bytes (0x42 ∷ 7 ∷ 9 ∷ []) ≡ ok (7 ∷ 9 ∷ [])
unfolding cbor_bytes encode_string encode_head
unwrap_bytes-cbor_bytes_example =
    unwrap_bytes-cbor_bytes cbor_lite (7 ∷ 9 ∷ []) (0x42 ∷ 7 ∷ 9 ∷ []) cbor_lite-IsCanonical refl

unwrap_bytes_canonical_example : 0x42 ∷ 7 ∷ 9 ∷ [] ≡ encode_string 2 (7 ∷ 9 ∷ [])
unwrap_bytes_canonical_example =
    unwrap_bytes_canonical (7 ∷ 9 ∷ []) (0x42 ∷ 7 ∷ 9 ∷ [])
      (omega arith, (omega arith, (omega arith, tt))) unwrap_bytes-cbor_bytes_example

number_canonical_example :
    (number (codes "12") ≡ ok 12) ↔ ((0 < 12) × (12 < 2 ^ 32) × (codes "12" ≡ to_string 12))
number_canonical_example = number_canonical (codes "12") 12

abbrev psbt : QrMessage
psbt = record { type = codes "crypto-psbt"; cbor = 0x42 ∷ 7 ∷ 9 ∷ []; secret = [] }

fragment_size_exists_example :
    (n : ℕ) × (fragment_size psbt 100 ≡ ok n)
    × (100 ≤ n)
    × (n ≤ 2080)
    × (length psbt.cbor ≤ max_ur_parts * n)
    × ((n ≡ 100) ⊎ (max_ur_parts * (n - 1) < length psbt.cbor))
fragment_size_exists_example =
    fragment_size_exists psbt 100 refl refl (omega arith) (omega arith) (omega arith) (omega arith)

fragment_size_bounds_example :
    (psbt.secret ≡ [])
    × (is_outgoing psbt.type ≡ true)
    × (10 ≤ 100)
    × (100 ≤ 2080)
    × (100 ≤ 100)
    × (length psbt.cbor ≤ max_ur_parts * 100)
unfolding fragment_size
fragment_size_bounds_example = fragment_size_bounds psbt 100 100 refl

-- An encoder whose state is the text that it shows.
abbrev fixed_encoder : UrEncoder
fixed_encoder = record {
  Encoder = Bytes;
  encoder = λ type cbor size. codes "ur:" ++ type;
  next_part = λ text. (text, text);
}

next_reads_back_example :
    (map to_lower (codes "UR:BYTES") ≡ codes "ur:bytes")
    × (length (codes "UR:BYTES") ≤ max_qr_text)
    × (all (λ c. not (is_lower c)) (codes "UR:BYTES") ≡ true)
unfolding next
next_reads_back_example =
    next_reads_back fixed_encoder (codes "ur:bytes") (codes "UR:BYTES") refl refl
