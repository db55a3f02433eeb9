-- ===== src/Cbor/Canonical.antt =====
-- `CborReader::Head` accepts the canonical encodings and nothing else.
use native.Mathlib.Decide.{dec_lt}
use native.Mathlib.Nat.{div-add-mod, mod-lt}
use thunderden.Base.{
  ℕ, zero, suc, ◌+◌, ◌-◌, ◌*◌, ◌/◌, ◌%◌, ◌^◌, ◌≤◌, ◌<◌, ◌≡◌, ap, ◌∙◌, ◌↔◌, ◌⊎◌, inl, inr, [], ◌∷◌,
  ◌++◌, arith, Result, ok, Bytes, IsByte, All, leb, ◌==◌, require-eq-ok, >>=-eq-ok, length, take,
  drop, append_assoc, ◌&&◌, length-append, length-take_le, take-append-drop, take-append_length,
  drop-append_length, leb, ◌==◌, require-eq-ok, >>=-eq-ok,
}
use thunderden.Cbor.{next_byte, minimum, read_be, long_head, head, data_item, u_int}
use thunderden.Cbor.Encoding.{pow256, big_endian, encode_head, encode_string}

pub pow256_pos : (k : ℕ) → 0 < pow256 k
unfolding pow256
pow256_pos zero = omega arith
pow256_pos (suc k) = omega (arith, pow256_pos k)

pub div-lt_256 : (n p : ℕ) → n < 256 * p → n / p < 256
div-lt_256 n p h = grind (arith, div-add-mod n p)

-- One more byte under the bound: nothing is shifted out of the 64 bits.
shift_fits :
    (value b p : ℕ)
    → 0 < p
    → b < 256
    → (value + 1) * (256 * p) ≤ 2 ^ 64
    → (value * 256 % 2 ^ 64 + b ≡ value * 256 + b) × ((value * 256 + b + 1) * p ≤ 2 ^ 64)
shift_fits value b p hp hb fits = (omega (arith, small), omega (arith, next, fits))
  where
    wide : value + 1 ≤ (value + 1) * p
    wide = grind arith

    small : value * 256 < 2 ^ 64
    small = omega (arith, wide, fits)

    next : (value * 256 + b + 1) * p ≤ ((value + 1) * 256) * p
    next = grind arith

same_value :
    {v w : ℕ} (rest : Bytes) → v ≡ w → ◌≡◌ {A = Result (ℕ × Bytes)} (ok (v, rest)) (ok (w, rest))
same_value rest e = cc

-- The bound says that `k` more bytes fit 64 bits.
pub read_be-big_endian :
    (k value n : ℕ) (rest : Bytes)
    → (value + 1) * pow256 k ≤ 2 ^ 64
    → n < pow256 k
    → read_be k value (big_endian k n ++ rest) ≡ ok (value * pow256 k + n, rest)
unfolding read_be next_byte pow256 big_endian
read_be-big_endian zero value n rest fits hn = ground arith
read_be-big_endian (suc k) value n rest fits hn =
    let p = pow256 k in
    let hp = pow256_pos k in
    let hb = div-lt_256 n p hn in
    let (same, fits') = shift_fits value (n / p) p hp hb fits in
    rw same (
      read_be-big_endian k (value * 256 + n / p) (n % p) rest fits' (mod-lt n hp)
      ∙ same_value rest (omega (arith, div-add-mod n p)))

div-mul_add : (b p n : ℕ) → n < p → ((b * p + n) / p ≡ b) × ((b * p + n) % p ≡ n)
div-mul_add b p n h = (grind arith, grind arith)

read_be-inversion :
    (k value : ℕ) (s rest : Bytes) (w : ℕ)
    → All IsByte s
    → (value + 1) * pow256 k ≤ 2 ^ 64
    → read_be k value s ≡ ok (w, rest)
    → (n : ℕ) × (n < pow256 k) × (w ≡ value * pow256 k + n) × (s ≡ big_endian k n ++ rest)
unfolding read_be next_byte pow256 big_endian
read_be-inversion zero value s rest w hs fits e = (0, omega arith, ground arith, ground arith)
read_be-inversion (suc k) value [] rest w hs fits e = cc
read_be-inversion (suc k) value (b ∷ s) rest w hs fits e =
    let p = pow256 k in
    let (same, fits') = shift_fits value b p (pow256_pos k) hs.0 fits in
    let (n, hn, hw, hs') =
      read_be-inversion k (value * 256 + b) s rest w hs.1 fits' (rw same at e) in
    let (q, r) = div-mul_add b p n hn in
    (b * p + n, grind arith, omega (arith, hw), rw (q, r) (ap (λ (t : Bytes). b ∷ t) hs'))

-- The arguments that a head with `2 ^ j` more bytes may carry.
abbrev IsLong : ℕ → ℕ → Type 0
IsLong j n = (j ≤ 3) × (minimum j ≤ n) × (n < pow256 (2 ^ j))

width_fits : (j : ℕ) → j ≤ 3 → pow256 (2 ^ j) ≤ 2 ^ 64
unfolding pow256
width_fits zero h = omega arith
width_fits (suc zero) h = omega arith
width_fits (suc (suc zero)) h = omega arith
width_fits (suc (suc (suc zero))) h = omega arith
width_fits (suc (suc (suc (suc j)))) h = absurd (omega arith)

IsLong-cases : (n : ℕ) → n < 2 ^ 64 → (n < 24) ⊎ ((j : ℕ) × IsLong j n)
unfolding pow256
IsLong-cases n h = elim (dec_lt n 24) [
  | yes a ↦ inl a
  | no a ↦ elim (dec_lt n 256) [
    | yes b ↦ inr (0, omega arith)
    | no b ↦ elim (dec_lt n 65536) [
      | yes c ↦ inr (1, omega arith)
      | no c ↦ elim (dec_lt n (2 ^ 32)) [
        | yes d ↦ inr (2, omega arith)
        | no d ↦ inr (3, omega arith)
      ]
    ]
  ]
]

encode_head_short : (major n : ℕ) → n < 24 → encode_head major n ≡ (major * 32 + n) ∷ []
unfolding encode_head
encode_head_short major n h = ground arith

encode_head_long :
    (major j n : ℕ)
    → IsLong j n
    → encode_head major n ≡ (major * 32 + (24 + j)) ∷ big_endian (2 ^ j) n
unfolding encode_head pow256
encode_head_long major zero n h = ground arith
encode_head_long major (suc zero) n h = ground arith
encode_head_long major (suc (suc zero)) n h = ground arith
encode_head_long major (suc (suc (suc zero))) n h = ground arith
encode_head_long major (suc (suc (suc (suc j)))) n h = absurd (omega arith)

long_head_encoded :
    (j n : ℕ) (rest : Bytes)
    → IsLong j n
    → long_head (24 + j) (big_endian (2 ^ j) n ++ rest) ≡ ok (n, rest)
unfolding long_head
long_head_encoded j n rest h =
    let e : 24 + j - 24 ≡ j = omega arith in
    let fits : (0 + 1) * pow256 (2 ^ j) ≤ 2 ^ 64 = omega (arith, width_fits j h.0) in
    rw (e, read_be-big_endian (2 ^ j) 0 n rest fits h.2) (ground arith)

long_head-inversion :
    (info n : ℕ) (s rest : Bytes)
    → All IsByte s
    → 24 ≤ info
    → long_head info s ≡ ok (n, rest)
    → (info ≤ 27) × IsLong (info - 24) n × (s ≡ big_endian (2 ^ (info - 24)) n ++ rest)
unfolding long_head
long_head-inversion info n s rest hs hi e =
    let (hi', e1) = require-eq-ok (leb info 27) _ _ e in
    let ((v, r), read, e2) = >>=-eq-ok (read_be (2 ^ (info - 24)) 0 s) _ e1 in
    let (hm, e3) = require-eq-ok (leb (minimum (info - 24)) v) _ _ e2 in
    let small : info - 24 ≤ 3 = ground arith in
    let (m, hb, hw, hs') =
      read_be-inversion (2 ^ (info - 24)) 0 s r v hs (omega (arith, width_fits (info - 24) small))
        read in
    let same : v ≡ n = ground arith in
    let same' : r ≡ rest = ground arith in
    let value : m ≡ n = omega arith in
    (ground arith, (small, ground arith, rw (← value) hb), rw (← value, ← same') hs')

head_short :
    (major info : ℕ) (rest : Bytes)
    → info < 24
    → head major ((major * 32 + info) ∷ rest) ≡ ok (info, rest)
unfolding head
head_short major info rest h = ground arith

head_long :
    (major info : ℕ) (s : Bytes)
    → 24 ≤ info
    → info < 32
    → head major ((major * 32 + info) ∷ s) ≡ long_head info s
unfolding head
head_long major info s h k = ground arith

-- A canonical head is read back, whatever follows it.
pub head-encode_head :
    (major n : ℕ) (rest : Bytes)
    → n < 2 ^ 64
    → head major (encode_head major n ++ rest) ≡ ok (n, rest)
head-encode_head major n rest hn = elim (IsLong-cases n hn) [
  | inl short ↦ rw (encode_head_short major n short) (head_short major n rest short)
  | inr (j, long) ↦
      rw (encode_head_long major j n long)
        (head_long major (24 + j) _ (omega arith) (omega arith) ∙ long_head_encoded j n rest long)
]

-- Whatever the reader accepts as a head is the canonical one.
pub head-inversion :
    (major n : ℕ) (s rest : Bytes)
    → All IsByte s
    → head major s ≡ ok (n, rest)
    → (n < 2 ^ 64) × (s ≡ encode_head major n ++ rest)
unfolding head next_byte
head-inversion major n [] rest hs e = cc
head-inversion major n (b ∷ s) rest hs e =
    let (hmajor, e1) = require-eq-ok (b / 32 == major) _ _ e in
    let first : b ≡ major * 32 + b % 32 = ground arith in
    elim (dec_lt (b % 32) 24) [
      | yes short ↦
          let value : n ≡ b % 32 = ground arith in
          let hn : n < 24 = omega arith in
          (omega arith, rw (encode_head_short major n hn) (ground arith))
      | no long ↦
          let e2 : long_head (b % 32) s ≡ ok (n, rest) = ground arith in
          let (hi, il, hs') = long_head-inversion (b % 32) n s rest hs.1 (omega arith) e2 in
          (
            omega (arith, width_fits (b % 32 - 24) il.0),
            rw (encode_head_long major (b % 32 - 24) n il) (ground (arith, hs')),
          )
    ]

-- A string of either kind is read back whole.
pub data_item-encode_string :
    (major maximum : ℕ) (b rest : Bytes)
    → length b ≤ maximum
    → length b < 2 ^ 64
    → data_item major maximum (encode_string major b ++ rest) ≡ ok (b, rest)
unfolding data_item encode_string
data_item-encode_string major maximum b rest hm hb =
    rw
      (
        append_assoc (encode_head major (length b)) b rest,
        head-encode_head major (length b) (b ++ rest) hb,
      )
      (ground (arith, length-append b rest, take-append_length b rest, drop-append_length b rest))

pub data_item-inversion :
    (major maximum : ℕ) (s b rest : Bytes)
    → All IsByte s
    → data_item major maximum s ≡ ok (b, rest)
    → (length b ≤ maximum) × (s ≡ encode_string major b ++ rest)
unfolding data_item encode_string
data_item-inversion major maximum s b rest hs e =
    let ((size, t), read, e1) = >>=-eq-ok (head major s) _ e in
    let (hsize, e2) = require-eq-ok (leb size maximum && leb size (length t)) _ _ e1 in
    let (hn, hs') = head-inversion major size s t hs read in
    let taken : take size t ≡ b = ground arith in
    let left : drop size t ≡ rest = ground arith in
    let len : length b ≡ size =
      omega (arith, ap (λ (x : Bytes). length x) taken, length-take_le size t (ground arith)) in
    let tail : t ≡ b ++ rest = ground (arith, take-append-drop size t) in
    (ground arith, cc (append_assoc (encode_head major (length b)) b rest))

-- The reader accepts exactly the canonical heads: over bytes, `Head(major)` returns `n` and the rest
-- if and only if `n` fits 64 bits and the input is the shortest head of `n` followed by the rest.
pub head_canonical :
    (major n : ℕ) (s rest : Bytes)
    → All IsByte s
    → (head major s ≡ ok (n, rest)) ↔ ((n < 2 ^ 64) × (s ≡ encode_head major n ++ rest))
head_canonical major n s rest hs =
    (head-inversion major n s rest hs, λ h. rw (h.1) (head-encode_head major n rest h.0))

pub u_int-le : (maximum n : ℕ) (s rest : Bytes) → u_int maximum s ≡ ok (n, rest) → n ≤ maximum
unfolding u_int
u_int-le maximum n s rest e =
    let ((v, r), read, e1) = >>=-eq-ok (head 0 s) _ e in
    let (h, e2) = require-eq-ok (leb v maximum) _ _ e1 in ground arith
