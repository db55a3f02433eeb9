-- ===== src/Policy/KeyText.antt =====
-- src/policy.cpp, Number, Take and ReadKey: the text of one key, `[fingerprint/path]xpub`.
use thunderden.Base.{
  ℕ, zero, suc, ◌+◌, ◌^◌, Bool, true, false, not, ◌&&◌, ◌||◌, List, [], ◌∷◌, ◌++◌, leb, ltb, ◌==◌,
  if◌then◌else◌, length, take, drop, all, is_empty, Result, ok, err, ◌>>=◌, ◌>>◌, require, or_throw,
  codes, starts_with, contains, text_eq, Bytes,
}
use thunderden.Core.{Core}
use thunderden.Keys.{hardened, version_bytes}
use thunderden.Decimal.{span_digits, from_chars, starts_zero}
use thunderden.Policy.{KeyInfo}

-- Digits with no leading zero, below 2^31.
unfoldable pub number : Bytes → Result (ℕ × Bytes)
number s = do
  let (digits, rest) = span_digits s
  require (not (is_empty digits) && (length digits == 1 || not (starts_zero digits)))
      "Invalid path or key number"
  (value, end) ← or_throw (from_chars (2 ^ 32) digits) "Path or key number out of range"
  require (ltb value hardened) "Path or key number out of range"
  ok (value, rest)

unfoldable pub take_token : Bytes → Bytes → Result Bytes
take_token token s = do
  require (starts_with s token) "Invalid key expression"
  ok (drop (length token) s)

-- An optional `h` or `'` hardens the index.
unfoldable pub harden : ℕ → Bytes → ℕ × Bytes
harden index [] = (index, [])
harden index (c ∷ rest) =
    if c == b'h' || c == 39 then (index + hardened, rest) else (index, c ∷ rest)

-- The loop over `/index` steps. Its argument is how many more steps the limit of 32 allows, and one.
unfoldable pub origin_loop : ℕ → List ℕ → Bytes → Result (List ℕ × Bytes)
origin_loop zero path s = err "Key origin exceeds 32 steps"
origin_loop (suc n) path [] = ok (path, [])
origin_loop (suc n) path (c ∷ s) =
    let step = number s >>= λ (index, rest).
    require (leb (length (path ++ ((harden index rest).0 ∷ []))) 32) "Key origin exceeds 32 steps"
    >> origin_loop n (path ++ ((harden index rest).0 ∷ [])) (harden index rest).1 in
    if c == b'/' then step else ok (path, c ∷ s)

-- The bracketed origin at the front of a key's text: fingerprint, path, and what follows.
unfoldable pub read_origin : Core → Bytes → Result (Bytes × List ℕ × Bytes)
read_origin core text = do
  require (leb 10 (length text) && core.is_hex (take 8 (drop 1 text))) "Invalid key fingerprint"
  (path, rest) ← origin_loop 33 [] (drop 9 text)
  encoded ← take_token (codes "]") rest
  ok (core.parse_hex (take 8 (drop 1 text)), path, encoded)

abbrev pub base58_alphabet : Bytes
base58_alphabet = codes "123456789ABCDEFGHJKLMNPQRSTUVWXYZabcdefghijkmnopqrstuvwxyz"

-- The extended key behind the origin.
unfoldable pub read_xpub : (core : Core) → Bool → Bytes → Result core.ExtPubKey
read_xpub core mainnet encoded = do
  require (starts_with encoded (if mainnet then codes "xpub" else codes "tpub"))
      "Wrong network or non-public key"
  require (all (contains base58_alphabet) encoded) "Invalid extended-key characters"
  decoded ← or_throw (core.decode_base58check encoded 78) "Invalid extended public key"
  require (length decoded == 78) "Invalid extended public key"
  require (text_eq (take 4 decoded) (version_bytes core mainnet)) "Wrong key version"
  let key = core.decode_with_version decoded
  require (core.is_fully_valid (core.pubkey key)) "Invalid public key point or metadata"
  ok key

abbrev starts_bracket : Bytes → Bool
starts_bracket [] = false
starts_bracket (c ∷ s) = c == b'['

unfoldable pub read_key : (core : Core) → Bytes → Bool → Result (KeyInfo core)
read_key core text mainnet = do
  require (not (is_empty text) && leb (length text) 512) "Invalid key information length"
  elim (starts_bracket text) [
    | true ↦ do
      (fingerprint, origin, encoded) ← read_origin core text
      key ← read_xpub core mainnet encoded
      ok (record {
        text = text;
        key = key;
        fingerprint = fingerprint;
        origin = origin;
        has_origin = true;
      })
    | false ↦ do
      key ← read_xpub core mainnet text
      ok (record {
        text = text;
        key = key;
        fingerprint = 0 ∷ 0 ∷ 0 ∷ 0 ∷ [];
        origin = [];
        has_origin = false;
      })
  ]
