-- ===== src/Cbor/RoundTrip.antt =====
-- src/cbor.h: the reader's methods on what the writer's methods append.
use thunderden.Base.{
  ℕ, ◌<◌, ◌≤◌, ◌^◌, ◌≡◌, Bool, true, false, [], ◌++◌, length, Bytes, ok, all, arith, if◌then◌else◌,
}
use thunderden.Cbor.{u_int, array, tuple, map, tag, bool, bytes, text, is_printable}
use thunderden.Cbor.Encoding.{encode_head, encode_string}
use thunderden.Cbor.Writer
use thunderden.Cbor.Writer.{CborLite, IsCanonical, CborWriter}
use thunderden.Cbor.Canonical.{head-encode_head, data_item-encode_string}

pub u_int-encode :
    (maximum n : ℕ) (rest : Bytes)
    → n ≤ maximum
    → n < 2 ^ 64
    → u_int maximum (encode_head 0 n ++ rest) ≡ ok (n, rest)
unfolding u_int
u_int-encode maximum n rest h k = ground (arith, head-encode_head 0 n rest k)

pub array-encode :
    (maximum n : ℕ) (rest : Bytes)
    → n ≤ maximum
    → n < 2 ^ 64
    → array maximum (encode_head 4 n ++ rest) ≡ ok (n, rest)
unfolding array
array-encode maximum n rest h k = ground (arith, head-encode_head 4 n rest k)

pub tuple-encode :
    (n : ℕ) (rest : Bytes) → n < 2 ^ 64 → tuple n (encode_head 4 n ++ rest) ≡ ok (tt, rest)
unfolding tuple
tuple-encode n rest k = ground (arith, head-encode_head 4 n rest k)

pub map-encode :
    (maximum n : ℕ) (rest : Bytes)
    → n ≤ maximum
    → n < 2 ^ 64
    → map maximum (encode_head 5 n ++ rest) ≡ ok (n, rest)
unfolding map
map-encode maximum n rest h k = ground (arith, head-encode_head 5 n rest k)

pub tag-encode : (n : ℕ) (rest : Bytes) → n < 2 ^ 64 → tag (encode_head 6 n ++ rest) ≡ ok (n, rest)
unfolding tag
tag-encode n rest k = head-encode_head 6 n rest k

pub bytes-encode :
    (maximum : ℕ) (v rest : Bytes)
    → length v ≤ maximum
    → length v < 2 ^ 64
    → bytes maximum (encode_string 2 v ++ rest) ≡ ok (v, rest)
unfolding bytes
bytes-encode maximum v rest h k = data_item-encode_string 2 maximum v rest h k

pub text-encode :
    (maximum : ℕ) (v rest : Bytes)
    → length v ≤ maximum
    → length v < 2 ^ 64
    → all is_printable v ≡ true
    → text maximum (encode_string 3 v ++ rest) ≡ ok (v, rest)
unfolding text
text-encode maximum v rest h k p = rw (data_item-encode_string 3 maximum v rest h k, p)

pub bool-encode :
    (v : Bool) (rest : Bytes) → bool (encode_head 7 (if v then 21 else 20) ++ rest) ≡ ok (v, rest)
unfolding bool
bool-encode true rest = rw (head-encode_head 7 21 rest (omega arith))
bool-encode false rest = rw (head-encode_head 7 20 rest (omega arith))

abbrev pub empty : CborWriter
empty = record { written = [] }

-- Whatever a method of the writer appends to an empty buffer, the reader's method of the same name
-- reads back with the bytes that follow: integers, array, map and tag heads below 2^64, Booleans,
-- byte strings, and texts of printable characters, each under the reader's limit.
pub read-write :
    (lib : CborLite) (maximum n : ℕ) (flag : Bool) (v rest : Bytes)
    → IsCanonical lib
    → n ≤ maximum
    → n < 2 ^ 64
    → length v ≤ maximum
    → length v < 2 ^ 64
    → all is_printable v ≡ true
    → (u_int maximum ((Writer.u_int lib empty n).written ++ rest) ≡ ok (n, rest))
      × (array maximum ((Writer.array lib empty n).written ++ rest) ≡ ok (n, rest))
      × (map maximum ((Writer.map lib empty n).written ++ rest) ≡ ok (n, rest))
      × (tag ((Writer.tag lib empty n).written ++ rest) ≡ ok (n, rest))
      × (bool ((Writer.bool lib empty flag).written ++ rest) ≡ ok (flag, rest))
      × (bytes maximum ((Writer.bytes lib empty v).written ++ rest) ≡ ok (v, rest))
      × (text maximum ((Writer.text lib empty v).written ++ rest) ≡ ok (v, rest))
unfolding Writer.u_int Writer.array Writer.map Writer.tag Writer.bool Writer.bytes Writer.text
read-write lib maximum n flag v rest c hm hn hv hw hp = (
  rw (c.unsigned [] n hn) (u_int-encode maximum n rest hm hn),
  rw (c.array_size [] n hn) (array-encode maximum n rest hm hn),
  rw (c.map_size [] n hn) (map-encode maximum n rest hm hn),
  rw (c.semantic [] n hn) (tag-encode n rest hn),
  rw (c.boolean [] flag) (bool-encode flag rest),
  rw (c.byte_string [] v hw) (bytes-encode maximum v rest hv hw),
  rw (c.text_string [] v hw) (text-encode maximum v rest hv hw hp),
)
