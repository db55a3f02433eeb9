-- ===== src/Cbor.antt =====
-- src/cbor.h, class CborReader: bounded readers over the bytes not read yet (`data_`).
-- Each method returns its value with the bytes that follow, or the message that it throws.
-- A method named like a keyword of the model keeps its word: `UInt` is `u_int`, `Data` is `data_item`.
pub mod Encoding
pub mod Writer
pub mod Canonical
pub mod RoundTrip
pub mod Tests
use thunderden.Base.{
  ℕ, zero, suc, ◌+◌, ◌-◌, ◌*◌, ◌/◌, ◌%◌, ◌^◌, Bool, true, false, ◌&&◌, ◌||◌, List, [], ◌∷◌, ltb,
  leb, ◌==◌, if◌then◌else◌, length, take, drop, all, is_empty, Result, ok, err, ◌>>=◌, ◌>>◌,
  require, Bytes,
}

-- UINT32_MAX, the default limit of `UInt`.
abbrev pub uint32_max : ℕ
uint32_max = 0xffff_ffff

abbrev pub Reader : Type 0 → Type 0
Reader A = Bytes → Result (A × Bytes)

unfoldable pub next_byte : Reader ℕ
next_byte [] = err "Truncated CBOR"
next_byte (b ∷ rest) = ok (b, rest)

-- `value = (value << 8) | Byte()` on a uint64_t: the low byte of the shifted value is 0.
abbrev pub shift_in : ℕ → ℕ → ℕ
shift_in value b = value * 256 % 2 ^ 64 + b

unfoldable pub read_be : ℕ → ℕ → Reader ℕ
read_be zero value s = ok (value, s)
read_be (suc n) value s = do (b, rest) ← next_byte s; read_be n (shift_in value b) rest

-- The table `minimum`, at `info - 24`.
abbrev pub minimum : ℕ → ℕ
minimum zero = 24
minimum (suc zero) = 256
minimum (suc (suc zero)) = 65536
minimum (suc (suc (suc n))) = 2 ^ 32

unfoldable pub long_head : ℕ → Reader ℕ
unfolding read_be
long_head info s = do
  require (leb info 27) "Indefinite or reserved CBOR"
  (value, rest) ← read_be (2 ^ (info - 24)) 0 s
  require (leb (minimum (info - 24)) value) "Non-canonical CBOR integer"
  ok (value, rest)

unfoldable pub head : ℕ → Reader ℕ
unfolding next_byte
head major s = do
  (first, rest) ← next_byte s
  require (first / 32 == major) "Wrong CBOR type"
  let info = first % 32
  if ltb info 24 then ok (info, rest) else long_head info rest

unfoldable pub data_item : ℕ → ℕ → Reader Bytes
data_item major maximum s = do
  (size, rest) ← head major s
  require (leb size maximum && leb size (length rest)) "CBOR length limit exceeded"
  ok (take size rest, drop size rest)

unfoldable pub u_int : ℕ → Reader ℕ
u_int maximum s = do
  (value, rest) ← head 0 s
  require (leb value maximum) "Integer limit exceeded"
  ok (value, rest)

unfoldable pub array : ℕ → Reader ℕ
array maximum s = do
  (size, rest) ← head 4 s
  require (leb size maximum) "Array limit exceeded"
  ok (size, rest)

unfoldable pub tuple : ℕ → Reader (Unit {0})
unfolding array
tuple size s = do (n, rest) ← array size s; require (n == size) "Wrong array length"; ok (tt, rest)

unfoldable pub map : ℕ → Reader ℕ
map maximum s = do
  (size, rest) ← head 5 s
  require (leb size maximum) "Map limit exceeded"
  ok (size, rest)

unfoldable pub tag : Reader ℕ
tag s = head 6 s

unfoldable pub bool : Reader Bool
bool s = do
  (value, rest) ← head 7 s
  require ((value == 20) || (value == 21)) "Expected CBOR boolean"
  ok (value == 21, rest)

unfoldable pub ignore_text : ℕ → Reader (Unit {0})
ignore_text maximum s = do (t, rest) ← data_item 3 maximum s; ok (tt, rest)

unfoldable pub bytes : ℕ → Reader Bytes
bytes maximum s = data_item 2 maximum s

abbrev pub is_printable : ℕ → Bool
is_printable c = leb 32 c && leb c 126

unfoldable pub text : ℕ → Reader Bytes
text maximum s = do
  (t, rest) ← data_item 3 maximum s
  require (all is_printable t) "Invalid text character"
  ok (t, rest)

unfoldable pub end : Bytes → Result (Unit {0})
end s = require (is_empty s) "Trailing CBOR data"
