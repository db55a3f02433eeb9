-- ===== src/Cbor/Encoding.antt =====
-- The canonical encoding that the reader is held to: RFC 8949, section 4.2.1, the shortest head.
use thunderden.Base.{
  ℕ, zero, suc, ◌+◌, ◌*◌, ◌/◌, ◌%◌, ◌^◌, ◌++◌, [], ◌∷◌, ltb, if◌then◌else◌, length, Bytes,
}

-- 256 to the power of a byte count.
unfoldable pub pow256 : ℕ → ℕ
pow256 zero = 1
pow256 (suc k) = 256 * pow256 k

-- `n` in `k` bytes, most significant first.
unfoldable pub big_endian : ℕ → ℕ → Bytes
big_endian zero n = []
big_endian (suc k) n = (n / pow256 k) ∷ big_endian k (n % pow256 k)

-- Major type and argument in the fewest bytes.
unfoldable pub encode_head : ℕ → ℕ → Bytes
encode_head major n =
    if ltb n 24
    then (major * 32 + n) ∷ []
    else if ltb n 256
    then (major * 32 + 24) ∷ big_endian 1 n
    else if ltb n 65536
    then (major * 32 + 25) ∷ big_endian 2 n
    else if ltb n (2 ^ 32)
    then (major * 32 + 26) ∷ big_endian 4 n
    else (major * 32 + 27) ∷ big_endian 8 n

-- A byte string (major type 2) or text (3).
unfoldable pub encode_string : ℕ → Bytes → Bytes
encode_string major b = encode_head major (length b) ++ b
