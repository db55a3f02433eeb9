-- ===== src/Transport/Payload.antt =====
-- src/transport.cpp, CborBytes, UnwrapBytes and Number: the byte-string wrapper of a message, and the
-- sequence numbers of a multi-part frame.
use thunderden.Base.{
  ok-injective, is_empty→nil, ℕ, ◌-◌, ◌≤◌, ◌<◌, ◌^◌, ◌≡◌, refl, sym, ap, ◌∙◌, ◌↔◌, false, not, ◌&&◌,
  [], some, leb, ltb, is_empty, length, ok, or_throw, require-eq-ok, >>=-eq-ok, Bytes, IsByte, All,
  append-nil, arith, and-true, length-append, le→leb, leb→le, lt→ltb, zero, suc,
}
use thunderden.Cbor
use thunderden.Cbor.Encoding.{big_endian, encode_head, encode_string}
use thunderden.Cbor.Writer.{CborLite, IsCanonical}
use thunderden.Cbor.Canonical.{data_item-encode_string, data_item-inversion}
use thunderden.Decimal.{to_string, from_chars, starts_zero}
use thunderden.Decimal.RoundTrip.{
  from_chars-to_string, to_string-canonical, starts_zero-to_string, from_chars-inversion,
}
use thunderden.Transport.{max_ur_message, cbor_bytes, unwrap_bytes, number}

length-big_endian : (k n : ℕ) → length (big_endian k n) ≡ k
unfolding big_endian
length-big_endian zero n = refl
length-big_endian (suc k) n = ap suc (length-big_endian k _)

length-encode_head : (major n : ℕ) → length (encode_head major n) ≤ 9
unfolding encode_head
length-encode_head major n = ground (
  arith,
  length-big_endian 1 n,
  length-big_endian 2 n,
  length-big_endian 4 n,
  length-big_endian 8 n,
)

-- A payload that `CborBytes` accepts is wrapped, and `UnwrapBytes` returns it.
pub unwrap_bytes-cbor_bytes :
    (lib : CborLite) (b c : Bytes)
    → IsCanonical lib
    → cbor_bytes lib b ≡ ok c
    → unwrap_bytes c ≡ ok b
unfolding cbor_bytes unwrap_bytes Cbor.bytes Cbor.end
unwrap_bytes-cbor_bytes lib b c canonical e =
    let (sized, e1) = require-eq-ok (leb (length b) (max_ur_message - 9)) _ _ e in
    let small : length b ≤ max_ur_message - 9 = leb→le _ _ sized in
    let wrapped : encode_string 2 b ≡ c =
      sym (canonical.byte_string [] b (omega arith)) ∙ ok-injective _ c e1 in
    let fits : length (encode_string 2 b) ≤ max_ur_message =
      unfold encode_string in
      omega (arith, length-append (encode_head 2 (length b)) b, length-encode_head 2 (length b)) in
    let read : Cbor.data_item 2 max_ur_message (encode_string 2 b) ≡ ok (b, []) =
      rw append-nil at
        (data_item-encode_string 2 max_ur_message b [] (omega arith) (omega arith)) in
    rw (← wrapped, le→leb _ _ fits, read) refl

-- `UnwrapBytes` accepts one encoding of each payload: whatever it unwraps is the canonical wrapping.
pub unwrap_bytes_canonical :
    (b c : Bytes) → All IsByte c → unwrap_bytes c ≡ ok b → c ≡ encode_string 2 b
unfolding unwrap_bytes Cbor.bytes Cbor.end
unwrap_bytes_canonical b c hc e =
    let (sized, e1) = require-eq-ok (leb (length c) max_ur_message) _ _ e in
    let ((v, rest), read, e2) = >>=-eq-ok (Cbor.data_item 2 max_ur_message c) _ e1 in
    let (done, e3) = require-eq-ok (is_empty rest) _ _ e2 in
    let (fits, shape) = data_item-inversion 2 max_ur_message c v rest hc read in
    let empty : rest ≡ [] = is_empty→nil rest done in
    let value : v ≡ b = cc in rw (empty, append-nil, value) at shape

number-inversion :
    (text : Bytes) (n : ℕ) → number text ≡ ok n → (0 < n) × (n < 2 ^ 32) × (text ≡ to_string n)
unfolding number
number-inversion text n e =
    let ((v, rest), read, e1) = >>=-eq-ok (or_throw (from_chars (2 ^ 32) text) _) _ e in
    let (c, e2) = require-eq-ok (is_empty rest && (ltb 0 v && not (starts_zero text))) _ _ e1 in
    let parsed : from_chars (2 ^ 32) text ≡ some (v, rest) = ground arith in
    let (ds, split, digits, filled, value, bound) =
      from_chars-inversion (2 ^ 32) v text rest parsed in
    let same : v ≡ n = ground arith in
    let whole : text ≡ ds = split ∙ rw (is_empty→nil rest (and-true _ _ c).0) (append-nil ds) in
    let lead : starts_zero ds ≡ false = rw (← whole) (ground arith) in
    (
      ground arith,
      ground arith,
      whole ∙ rw (← same, ← value) (sym (to_string-canonical ds digits filled lead)),
    )

-- A sequence number is read exactly from the decimal text of a positive 32-bit number: no sign, no
-- leading zero, nothing behind it.
pub number_canonical :
    (text : Bytes) (n : ℕ) → (number text ≡ ok n) ↔ ((0 < n) × (n < 2 ^ 32) × (text ≡ to_string n))
unfolding number
number_canonical text n = (number-inversion text n, λ (pos, bound, same). back pos bound same)
  where
    back : 0 < n → n < 2 ^ 32 → text ≡ to_string n → number text ≡ ok n
    back pos bound same =
        let read : from_chars (2 ^ 32) (to_string n) ≡ some (n, []) =
          rw append-nil at (from_chars-to_string (2 ^ 32) n [] bound refl) in
        rw (same, read, lt→ltb 0 n pos, starts_zero-to_string n pos) refl
