-- ===== src/Cbor/Tests.antt =====
-- The codec at concrete values, with an encoder that stands for the library of src/cbor.h.
use thunderden.Base.{
  ◌<◌, ◌^◌, ◌≡◌, ◌↔◌, refl, true, [], ◌∷◌, ◌++◌, if◌then◌else◌, Bytes, ok, codes, arith,
}
use thunderden.Cbor.{head, u_int, array, map, tag, bool, bytes, text}
use thunderden.Cbor.Encoding.{encode_head, encode_string}
use thunderden.Cbor.Writer
use thunderden.Cbor.Writer.{CborLite, IsCanonical}
use thunderden.Cbor.Canonical.{head_canonical}
use thunderden.Cbor.RoundTrip.{empty, read-write}

abbrev pub cbor_lite : CborLite
cbor_lite = record {
  encode_unsigned = λ b n. b ++ encode_head 0 n;
  encode_array_size = λ b n. b ++ encode_head 4 n;
  encode_map_size = λ b n. b ++ encode_head 5 n;
  encode_tag = λ b n. b ++ encode_head 6 n;
  encode_bool = λ b v. b ++ encode_head 7 (if v then 21 else 20);
  encode_bytes = λ b v. b ++ encode_string 2 v;
  encode_text = λ b v. b ++ encode_string 3 v;
}

pub cbor_lite-IsCanonical : IsCanonical cbor_lite
cbor_lite-IsCanonical = record {
  unsigned = λ b n h. refl;
  array_size = λ b n h. refl;
  map_size = λ b n h. refl;
  semantic = λ b n h. refl;
  boolean = λ b v. refl;
  byte_string = λ b v h. refl;
  text_string = λ b v h. refl;
}

abbrev long_input : Bytes
long_input = 0x18 ∷ 0x64 ∷ 0x05 ∷ []

head_canonical_example :
    (head 0 long_input ≡ ok (100, 5 ∷ []))
    ↔ ((100 < 2 ^ 64) × (long_input ≡ encode_head 0 100 ++ (5 ∷ [])))
head_canonical_example =
    head_canonical 0 100 long_input (5 ∷ []) (omega arith, (omega arith, (omega arith, tt)))

read-write_example :
    (u_int 200 ((Writer.u_int cbor_lite empty 100).written ++ (1 ∷ [])) ≡ ok (100, 1 ∷ []))
    × (array 200 ((Writer.array cbor_lite empty 100).written ++ (1 ∷ [])) ≡ ok (100, 1 ∷ []))
    × (map 200 ((Writer.map cbor_lite empty 100).written ++ (1 ∷ [])) ≡ ok (100, 1 ∷ []))
    × (tag ((Writer.tag cbor_lite empty 100).written ++ (1 ∷ [])) ≡ ok (100, 1 ∷ []))
    × (bool ((Writer.bool cbor_lite empty true).written ++ (1 ∷ [])) ≡ ok (true, 1 ∷ []))
    × (bytes 200 ((Writer.bytes cbor_lite empty (codes "ab")).written ++ (1 ∷ []))
        ≡ ok (codes "ab", 1 ∷ []))
    × (text 200 ((Writer.text cbor_lite empty (codes "ab")).written ++ (1 ∷ []))
        ≡ ok (codes "ab", 1 ∷ []))
read-write_example =
    read-write cbor_lite 200 100 true (codes "ab") (1 ∷ []) cbor_lite-IsCanonical (omega arith)
      (omega arith) (omega arith) (omega arith) refl
