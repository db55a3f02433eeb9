-- ===== src/Transport/Receiver/Checks.antt =====
-- What `URReceiver::Receive` checks before it records a fragment, and the invariant of a scan.
use thunderden.Base.{
  ℕ, ◌+◌, ◌-◌, ◌*◌, ◌≤◌, ◌<◌, ◌≡◌, refl, true, not, ◌&&◌, ◌||◌, [], ◌∷◌, Option, none, some, leb,
  ltb, ◌==◌, is_some, length, is_empty, if◌then◌else◌, ok, or_throw, codes, text_eq, split_at,
  Bytes, Ensures, returns, Ensures-bind, Ensures-then, Ensures-if, Ensures-value, not-is_some,
  Ensures-require, Bool-cases, and-true, ◌⊎◌, inl, inr, arith, all, is_lower, Option-cases, ltb→lt,
  leb→le, ◌^◌, drop, map, to_lower, starts_with,
}
use thunderden.Cbor
use thunderden.Cbor.Canonical.{u_int-le}
use thunderden.Decimal.{from_chars, starts_zero}
use thunderden.Cbor.Writer.{CborLite}
use thunderden.Transport.{
  max_ur_parts, max_address_qr, cbor_bytes, max_qr_text, QrMessage, Header, Part, Codecs, number,
  unwrap_bytes,
}
use thunderden.Transport.Receiver.{
  Receiver, Action, complete, repeat, add, find_seen, is_incoming, maximum_of, finish, fragment,
  same_stream, header_of, is_ur_char, new_or_repeat, multi_part, single_part, ur_body, ur_frame,
  seed_frame, address_frame, address_message, is_visible, route, is_standard_seed, is_compact_seed,
  validate,
}

-- The geometry of a stream: every number that the fountain decoder is given is bounded.
abbrev pub IsBounded : Bytes → Header → Type 0
IsBounded type h =
    (is_incoming type ≡ true)
    × (1 ≤ h.parts)
    × (h.parts ≤ max_ur_parts)
    × (1 ≤ h.bytes)
    × (h.bytes ≤ maximum_of type)
    × (1 ≤ h.fragment)
    × (h.bytes ≤ h.parts * h.fragment)
    × ((h.parts - 1) * h.fragment < h.bytes)

-- A message that is handed on has one of three shapes: a seed of 16, 32, 48 or 96 bytes with no public
-- bytes; a payload of a supported type, within that type's limit and, unless it is a wallet setup, one
-- readable CBOR byte string; or an address.
abbrev IsSeedLength : ℕ → Type 0
IsSeedLength n = (n ≡ 16) ⊎ (n ≡ 32) ⊎ (n ≡ 48) ⊎ (n ≡ 96)

abbrev IsReadable : Bytes → Bytes → Type 0
IsReadable type cbor =
    (text_eq type (codes "crypto-output") ≡ true) ⊎ ((b : Bytes) × (unwrap_bytes cbor ≡ ok b))

abbrev pub IsMessage : QrMessage → Type 0
IsMessage m =
    ((m.cbor ≡ []) × IsSeedLength (length m.secret))
    ⊎ ((is_incoming m.type ≡ true)
        × (m.secret ≡ [])
        × (1 ≤ length m.cbor)
        × (length m.cbor ≤ maximum_of m.type)
        × IsReadable m.type m.cbor)
    ⊎ ((m.type ≡ codes "address") × (m.secret ≡ []))

readable :
    (type payload b : Bytes)
    → (if text_eq type (codes "crypto-output") then ok [] else unwrap_bytes payload) ≡ ok b
    → IsReadable type payload
readable type payload b e = elim (Bool-cases (text_eq type (codes "crypto-output"))) [
  | inl h ↦ inl h
  | inr h ↦ inr (b, rw h at e)
]

seed_length :
    (lib : Codecs) (frame : Bytes)
    → (is_standard_seed frame || is_compact_seed lib frame) ≡ true
    → IsSeedLength (length frame)
unfolding is_standard_seed is_compact_seed
seed_length lib frame h = ground arith

not_empty : (s : Bytes) → not (is_empty s) ≡ true → 1 ≤ length s
not_empty [] h = cc
not_empty (c ∷ s) h = omega arith

number_pos : (text : Bytes) → Ensures (λ n. 1 ≤ n) (number text)
unfolding number
number_pos text = Ensures-bind (or_throw (from_chars (2 ^ 32) text) _) λ (value, rest) _.
    Ensures-require (is_empty rest && (ltb 0 value && not (starts_zero text))) _
      λ c. returns {a = value} (ltb→lt _ _ (and-true _ _ (and-true _ _ c).1).0)

-- A fragment that `fragment` returns has the numbers it was held to, and its sizes fit together.
abbrev Fits : ℕ → ℕ → ℕ → Part → Type 0
Fits maximum sequence parts p =
    (p.sequence ≡ sequence)
    × (p.parts ≡ parts)
    × (1 ≤ p.bytes)
    × (p.bytes ≤ maximum)
    × (1 ≤ length p.fragment)
    × (p.bytes ≤ parts * length p.fragment)
    × ((parts - 1) * length p.fragment < p.bytes)

fragment-Fits :
    (maximum sequence parts : ℕ) (cbor : Bytes)
    → Ensures (Fits maximum sequence parts) (fragment maximum sequence parts cbor)
unfolding fragment
fragment-Fits maximum sequence parts cbor = Ensures-bind (Cbor.tuple 5 cbor) λ (u, c1) _.
    Ensures-bind (Cbor.u_int Cbor.uint32_max c1) λ (n, c2) _. Ensures-require (n == sequence) _ λ _.
      Ensures-bind (Cbor.u_int Cbor.uint32_max c2) λ (p, c3) _. Ensures-require (p == parts) _ λ _.
        Ensures-bind (Cbor.u_int maximum c3) λ (size, c4) sized.
          Ensures-bind (Cbor.u_int Cbor.uint32_max c4) λ (sum, c5) _.
            Ensures-bind (Cbor.bytes max_qr_text c5) λ (piece, c6) _. Ensures-then (Cbor.end c6) (
              Ensures-require (ltb 0 size && not (is_empty piece)) _ λ filled.
                Ensures-require
                  (leb size (parts * length piece) && ltb ((parts - 1) * length piece) size) _
                  λ geometry.
                    returns
                      {a = record {
                        sequence = sequence;
                        parts = parts;
                        bytes = size;
                        checksum = sum;
                        fragment = piece;
                      }}
                      (
                        refl,
                        refl,
                        ltb→lt _ _ (and-true _ _ filled).0,
                        u_int-le maximum size c3 c4 sized,
                        not_empty piece (and-true _ _ filled).1,
                        leb→le _ _ (and-true _ _ geometry).0,
                        ltb→lt _ _ (and-true _ _ geometry).1,
                      ))

Fits-IsBounded :
    (type : Bytes) (n parts : ℕ) (part : Part)
    → is_incoming type ≡ true
    → 1 ≤ parts
    → parts ≤ max_ur_parts
    → Fits (maximum_of type) n parts part
    → IsBounded type (header_of part)
unfolding header_of
Fits-IsBounded type n parts part known positive few fits = ground arith

pub finish-IsMessage :
    (type payload : Bytes) → is_incoming type ≡ true → Ensures IsMessage (finish type payload)
unfolding finish
finish-IsMessage type payload known =
    Ensures-require (not (is_empty payload) && leb (length payload) (maximum_of type)) _ λ sized.
      Ensures-bind (if text_eq type (codes "crypto-output") then ok [] else unwrap_bytes payload)
        λ b unwrapped. returns {a = record { type = type; cbor = payload; secret = [] }} (
          inr (
            inl (
              known,
              refl,
              not_empty payload (and-true _ _ sized).0,
              leb→le _ _ (and-true _ _ sized).1,
              readable type payload b unwrapped,
            )))

address_message-IsMessage :
    (cbor_lite : CborLite) (prefix frame : Bytes)
    → Ensures IsMessage (address_message cbor_lite prefix frame)
unfolding address_message
address_message-IsMessage cbor_lite prefix frame =
    Ensures-require (leb (length frame) max_address_qr && all is_visible frame) _ λ _.
      Ensures-require _ _ λ _. Ensures-bind (cbor_bytes cbor_lite frame) λ cbor _.
        returns {a = record { type = codes "address"; cbor = cbor; secret = [] }}
          (inr (inr (refl, refl)))

module _ (lib : Codecs) where
  -- What holds of an action that `validate` returns.
  abbrev pub Allowed : Receiver lib → Action → Type 0
  Allowed r (complete m) = IsMessage m
  Allowed r repeat = Unit {0}
  Allowed r (add type h digest part) =
      (h ≡ header_of part)
      × IsBounded type h
      × (same_stream r.header h ≡ true)
      × ((is_empty r.type || text_eq r.type type) ≡ true)
      × (find_seen part.sequence r.seen ≡ none)
      × (length r.seen < 4 * part.parts + 64)
      × (r.result ≡ none)

  module _ (r : Receiver lib) (type : Bytes) (fresh : r.result ≡ none)
      (same_type : (is_empty r.type || text_eq r.type type) ≡ true) where
    new_or_repeat-Allowed :
        (digest : Bytes) (part : Part)
        → IsBounded type (header_of part)
        → same_stream r.header (header_of part) ≡ true
        → Ensures (Allowed r) (new_or_repeat lib r type digest part)
    unfolding new_or_repeat
    new_or_repeat-Allowed digest part b s = elim (Option-cases (find_seen part.sequence r.seen)) [
      | inl e ↦
          rw (e, new_or_repeat)
            (Ensures-require (ltb (length r.seen) (4 * part.parts + 64)) _ (λ c.
              returns {a = add type (header_of part) digest part}
                (refl, b, s, same_type, e, ltb→lt _ _ c, fresh)))
      | inr (d, e) ↦
          rw (e, new_or_repeat)
            (Ensures-require (text_eq d digest) _ (λ c. returns {a = repeat} tt))
    ]

    multi_part-Allowed :
        (sequence cbor : Bytes)
        → is_incoming type ≡ true
        → Ensures (Allowed r) (multi_part lib r type sequence cbor)
    unfolding multi_part
    multi_part-Allowed sequence cbor known =
        Ensures-bind (or_throw (split_at b'-' sequence) _) λ (left, right) _.
          Ensures-bind (number left) λ n _. Ensures-bind (number right) λ parts counted.
            Ensures-require (leb parts max_ur_parts) _ λ few.
              Ensures-bind (fragment (maximum_of type) n parts cbor) λ part read.
                Ensures-require (same_stream r.header (header_of part)) _ λ stream.
                  new_or_repeat-Allowed (lib.sha256 cbor) part
                    (Fits-IsBounded type n parts part known
                      (Ensures-value (number_pos right) parts counted) (leb→le _ _ few)
                      (Ensures-value (fragment-Fits (maximum_of type) n parts cbor) part read))
                    stream

    single_part-Allowed :
        (cbor : Bytes) → is_incoming type ≡ true → Ensures (Allowed r) (single_part lib r type cbor)
    unfolding single_part
    single_part-Allowed cbor known = Ensures-require (not (is_some r.header)) _ λ _.
        Ensures-bind (finish type cbor) λ message done.
          returns {a = complete message}
            (Ensures-value (finish-IsMessage type cbor known) message done)

    ur_body-Allowed :
        (sequence : Option Bytes) (body : Bytes)
        → is_incoming type ≡ true
        → Ensures (Allowed r) (ur_body lib r type sequence body)
    unfolding ur_body
    ur_body-Allowed none body known =
        Ensures-require (not (is_empty body) && all is_lower body) _ λ _.
          Ensures-bind (or_throw (lib.bytewords body) _) λ cbor _. single_part-Allowed cbor known
    ur_body-Allowed (some text) body known =
        Ensures-require (not (is_empty body) && all is_lower body) _ λ _.
          Ensures-bind (or_throw (lib.bytewords body) _)
            λ cbor _. multi_part-Allowed text cbor known

  ur_frame-Allowed :
      (r : Receiver lib) (frame : Bytes)
      → r.result ≡ none
      → Ensures (Allowed r) (ur_frame lib r frame)
  unfolding ur_frame
  ur_frame-Allowed r frame fresh = Ensures-require (all is_ur_char frame) _ λ _.
      Ensures-require (starts_with (map to_lower frame) (codes "ur:")) _ λ _.
        Ensures-bind (or_throw (split_at b'/' (drop 3 (map to_lower frame))) _) λ (type, rest) _.
          Ensures-require (is_incoming type) _ λ known.
            Ensures-require (is_empty r.type || text_eq r.type type) _ λ same.
              elim (Option-cases (split_at b'/' rest)) [
                | inl e ↦ rw e (ur_body-Allowed r type fresh same none rest known)
                | inr ((sequence, body), e) ↦
                    rw e (ur_body-Allowed r type fresh same (some sequence) body known)
              ]

  module _ (cbor_lite : CborLite) (r : Receiver lib) (fresh : r.result ≡ none) where
    seed_frame-Allowed :
        (frame : Bytes) → IsSeedLength (length frame) → Ensures (Allowed r) (seed_frame lib r frame)
    unfolding seed_frame
    seed_frame-Allowed frame h =
        Ensures-require (is_empty r.type) _ λ _. returns {a = complete _} (inl (refl, h))

    address_frame-Allowed :
        (prefix frame : Bytes) → Ensures (Allowed r) (address_frame lib cbor_lite r prefix frame)
    unfolding address_frame
    address_frame-Allowed prefix frame = Ensures-require (is_empty r.type) _ λ _.
        Ensures-bind (address_message cbor_lite prefix frame) λ message done.
          returns {a = complete message}
            (Ensures-value (address_message-IsMessage cbor_lite prefix frame) message done)

    route-Allowed :
        (prefix frame : Bytes) → Ensures (Allowed r) (route lib cbor_lite r prefix frame)
    unfolding route
    route-Allowed prefix frame =
        Ensures-if (is_standard_seed frame || is_compact_seed lib frame)
          (λ c. seed_frame-Allowed frame (seed_length lib frame c))
          (λ _.
            Ensures-if (starts_with prefix (codes "ur:")) (λ _. ur_frame-Allowed r frame fresh)
              (λ _. address_frame-Allowed prefix frame))

  pub validate-Allowed :
      (cbor_lite : CborLite) (r : Receiver lib) (frame : Bytes)
      → Ensures (Allowed r) (validate lib cbor_lite r frame)
  unfolding validate
  validate-Allowed cbor_lite r frame = Ensures-require (not (is_some r.result)) _ λ open'.
      Ensures-require (not (is_empty frame) && leb (length frame) max_qr_text) _
        λ _. route-Allowed cbor_lite r (not-is_some _ open') _ frame
