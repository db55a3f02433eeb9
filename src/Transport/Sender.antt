-- ===== src/Transport/Sender.antt =====
-- src/transport.cpp, FragmentSize and class URSender: an outgoing message as QR frames. The fountain
-- encoder is a library object; `next_part` changes it.
use thunderden.Base.{
  ok-injective, is_empty→nil, nil→is_empty, ℕ, ◌+◌, ◌-◌, ◌*◌, ◌/◌, ◌≤◌, ◌<◌, ◌≡◌, ◌⊎◌, refl, Bool,
  true, not, ◌&&◌, ◌||◌, [], ◌∷◌, map, leb, is_empty, length, all, Result, ok, ◌>>=◌, ◌>>◌, require,
  require-eq-ok, codes, text_eq, Bytes, arith, is_lower, is_upper, to_lower, to_upper, and-true,
  leb→le, le→leb,
}
use thunderden.Transport.{QrMessage, max_ur_message, max_ur_parts, max_qr_text}
use Prim.Native.Nat.{max}

abbrev pub is_outgoing : Bytes → Bool
is_outgoing type =
    text_eq type (codes "crypto-psbt")
    || (text_eq type (codes "bytes")
        || (text_eq type (codes "hdkey")
            || (text_eq type (codes "crypto-output") || text_eq type (codes "crypto-account"))))

-- The parts that a message of `size` bytes is cut into.
abbrev pub part_count : ℕ → ℕ → ℕ
part_count size fragment = (size + fragment - 1) / fragment

unfoldable pub fragment_size : QrMessage → ℕ → Result ℕ
fragment_size message preferred = do
  require (is_empty message.secret) "A seed QR cannot be sent as a public UR reply"
  require (not (is_empty message.cbor) && leb (length message.cbor) max_ur_message)
      "UR message size limit exceeded"
  require (is_outgoing message.type) "Unsupported outgoing UR type"
  let size = max preferred (part_count (length message.cbor) max_ur_parts)
  require (leb 10 size && leb size 2080) "UR fragment size limit exceeded"
  ok size

pub record UrEncoder : Type 1 where
  pub Encoder : Type 0
  pub encoder : Bytes → Bytes → ℕ → Encoder
  pub next_part : Encoder → Bytes × Encoder

module _ (lib : UrEncoder) where
  -- The constructor: the encoder of the message at its fragment size.
  pub start : QrMessage → ℕ → Result lib.Encoder
  start message preferred = do
    size ← fragment_size message preferred
    ok (lib.encoder message.type message.cbor size)

  unfoldable pub next : lib.Encoder → lib.Encoder × Result Bytes
  next e =
      let (text, e') = lib.next_part e in
      (
        e',
        require (leb (length text) max_qr_text) "Encoded QR exceeds capacity"
            >> ok (map to_upper text),
      )

in_range :
    (s : Bytes) (n : ℕ)
    → 1 ≤ length s
    → length s ≤ n
    → (not (is_empty s) && leb (length s) n) ≡ true
in_range [] n h k = absurd (omega arith)
in_range (c ∷ s) n h k = le→leb _ _ k

-- A public, non-empty message of an outgoing type that fits 1024 parts of 2080 bytes gets a fragment size,
-- for a preferred size of 10 to 2080. It is the least size, from the preferred one on, that covers the
-- message in 1024 parts: it is at least the preferred size and at most 2080, 1024 parts of it cover the
-- message, and either it is the preferred size or 1024 parts of one byte less do not cover it.
pub fragment_size_exists :
    (message : QrMessage) (preferred : ℕ)
    → message.secret ≡ []
    → is_outgoing message.type ≡ true
    → 1 ≤ length message.cbor
    → length message.cbor ≤ 2080 * 1024
    → 10 ≤ preferred
    → preferred ≤ 2080
    → (n : ℕ) × (fragment_size message preferred ≡ ok n)
      × (preferred ≤ n)
      × (n ≤ 2080)
      × (length message.cbor ≤ max_ur_parts * n)
      × ((n ≡ preferred) ⊎ (max_ur_parts * (n - 1) < length message.cbor))
unfolding fragment_size
fragment_size_exists message preferred public type filled small low high =
    let open' : is_empty message.secret ≡ true = nil→is_empty message.secret public in
    let sized : (not (is_empty message.cbor) && leb (length message.cbor) max_ur_message) ≡ true =
      in_range message.cbor max_ur_message filled (omega arith) in
    let size = max preferred (part_count (length message.cbor) max_ur_parts) in
    let fits : (leb 10 size && leb size 2080) ≡ true =
      ground (arith, le→leb 10 size (omega arith), le→leb size 2080 (omega arith)) in
    (size, rw (open', sized, type, fits) refl, omega arith, omega arith, omega arith, omega arith)

-- A message that gets a fragment size is public, and is cut into at most 1024 parts of 10 to 2080 bytes.
pub fragment_size_bounds :
    (message : QrMessage) (preferred n : ℕ)
    → fragment_size message preferred ≡ ok n
    → (message.secret ≡ [])
      × (is_outgoing message.type ≡ true)
      × (10 ≤ n)
      × (n ≤ 2080)
      × (preferred ≤ n)
      × (length message.cbor ≤ max_ur_parts * n)
unfolding fragment_size
fragment_size_bounds message preferred n e =
    let (public, e1) = require-eq-ok (is_empty message.secret) _ _ e in
    let (sized, e2) =
      require-eq-ok (not (is_empty message.cbor) && leb (length message.cbor) max_ur_message) _ _
        e1 in
    let (type, e3) = require-eq-ok (is_outgoing message.type) _ _ e2 in
    let size = max preferred (part_count (length message.cbor) max_ur_parts) in
    let (fits, e4) = require-eq-ok (leb 10 size && leb size 2080) _ _ e3 in
    let same : size ≡ n = ok-injective size n e4 in
    (
      is_empty→nil message.secret public,
      type,
      rw (← same) (leb→le _ _ (and-true _ _ fits).0),
      rw (← same) (leb→le _ _ (and-true _ _ fits).1),
      omega arith,
      omega arith,
    )

to_lower-to_upper :
    (s : Bytes) → all (λ c. not (is_upper c)) s ≡ true → map to_lower (map to_upper s) ≡ s
to_lower-to_upper [] h = refl
to_lower-to_upper (c ∷ s) h = ground (arith, to_lower-to_upper s)

length-map : (s : Bytes) → length (map to_upper s) ≡ length s
length-map [] = refl
length-map (c ∷ s) = omega (arith, length-map s)

no_lower : (s : Bytes) → all (λ c. not (is_lower c)) (map to_upper s) ≡ true
no_lower [] = refl
no_lower (c ∷ s) = ground (arith, no_lower s)

-- What `Next` shows has no lower-case letter, and is the encoder's text once lowered again.
pub next_reads_back :
    (lib : UrEncoder) (e : lib.Encoder) (shown : Bytes)
    → all (λ c. not (is_upper c)) (lib.next_part e).0 ≡ true
    → (next lib e).1 ≡ ok shown
    → (map to_lower shown ≡ (lib.next_part e).0)
      × (length shown ≤ max_qr_text)
      × (all (λ c. not (is_lower c)) shown ≡ true)
unfolding next
next_reads_back lib e shown upper h =
    let text = (lib.next_part e).0 in
    let (fits, same) = require-eq-ok (leb (length text) max_qr_text) _ (ok (map to_upper text)) h in
    let shown_is : map to_upper text ≡ shown = ok-injective (map to_upper text) shown same in
    rw (← shown_is)
      (to_lower-to_upper text upper, rw (length-map text) (leb→le _ _ fits), no_lower text)
