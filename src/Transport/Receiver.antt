-- ===== src/Transport/Receiver.antt =====
-- src/transport.cpp, class URReceiver: one scan. `Receive` first validates a frame, throwing without
-- a change of state, and then performs the action that the frame asks for.
pub mod Checks
pub mod Invariant
pub mod Streams
pub mod Repeats
pub mod Tests
use thunderden.Base.{
  ℕ, ◌+◌, ◌-◌, ◌*◌, Bool, true, false, not, ◌&&◌, ◌||◌, List, [], ◌∷◌, map, Option, none, some, ltb,
  leb, ◌==◌, if◌then◌else◌, is_some, length, take, drop, all, is_empty, Result, ok, err, ◌>>=◌,
  ◌>>◌, require, or_throw, codes, text_eq, starts_with, contains, is_digit, is_lower, is_upper,
  to_lower, split_at, Bytes,
}
use thunderden.Cbor
use thunderden.Cbor.Writer.{CborLite}
use thunderden.Transport.{
  max_wallet_setup, max_ur_message, max_ur_parts, max_qr_text, max_address_qr, QrMessage, Header,
  header_eq, Part, Codecs, number, cbor_bytes, unwrap_bytes,
}

abbrev pub is_visible : ℕ → Bool
is_visible c = leb 33 c && leb c 126

-- A valid legacy address of either network: the version byte of its 21 decoded bytes.
pub is_legacy_address : Option Bytes → Bool
is_legacy_address none = false
is_legacy_address (some []) = false
is_legacy_address (some (v ∷ rest)) =
    length (v ∷ rest) == 21 && (v == 0 || (v == 5 || (v == 111 || v == 196)))

pub is_standard_seed : Bytes → Bool
is_standard_seed frame = (length frame == 48 || length frame == 96) && all is_digit frame

pub is_compact_seed : Codecs → Bytes → Bool
is_compact_seed lib frame =
    (length frame == 16 || length frame == 32)
    && not (all is_visible frame && is_legacy_address (lib.base58check frame))

-- What a validated frame asks for.
pub data Action : Type 0 where
  complete : QrMessage → Action
  repeat : Action
  add : Bytes → Header → Bytes → Part → Action

pub record Receiver (lib : Codecs) : Type 0 where
  pub type : Bytes
  pub header : Option Header
  pub seen : List (ℕ × Bytes)
  pub decoder : lib.Decoder
  pub result : Option QrMessage

pub start : (lib : Codecs) → Receiver lib
start lib = record { type = []; header = none; seen = []; decoder = lib.new_decoder; result = none }

pub find_seen : ℕ → List (ℕ × Bytes) → Option Bytes
find_seen k [] = none
find_seen k ((j, d) ∷ m) = if j == k then some d else find_seen k m

abbrev pub is_incoming : Bytes → Bool
is_incoming type =
    text_eq type (codes "crypto-psbt")
    || (text_eq type (codes "bytes") || text_eq type (codes "crypto-output"))

abbrev pub maximum_of : Bytes → ℕ
maximum_of type = if text_eq type (codes "crypto-output") then max_wallet_setup else max_ur_message

-- The lambda `finish`.
pub finish : Bytes → Bytes → Result QrMessage
finish type payload = do
  require (not (is_empty payload) && leb (length payload) (maximum_of type))
      "QR payload size limit exceeded"
  unwrapped ← if text_eq type (codes "crypto-output") then ok [] else unwrap_bytes payload
  ok (record { type = type; cbor = payload; secret = [] })

abbrev pub front_in : Bytes → Bytes → Bool
front_in set [] = false
front_in set (c ∷ frame) = contains set c

pub address_message : CborLite → Bytes → Bytes → Result QrMessage
address_message cbor_lite prefix frame = do
  require (leb (length frame) max_address_qr && all is_visible frame) "Invalid address QR text"
  require
      (starts_with prefix (codes "bitcoin:")
        || (starts_with prefix (codes "bc1")
            || (starts_with prefix (codes "tb1")
                || (starts_with prefix (codes "bcrt1") || front_in (codes "13mn2") frame))))
      "Unsupported QR data"
  cbor ← cbor_bytes cbor_lite frame
  ok (record { type = codes "address"; cbor = cbor; secret = [] })

abbrev pub is_ur_char : ℕ → Bool
is_ur_char c = is_lower c || (is_upper c || (is_digit c || (c == b':' || (c == b'/' || c == b'-'))))

-- The part of a frame that is one fountain fragment: the CBOR header against the text's numbers.
pub fragment : ℕ → ℕ → ℕ → Bytes → Result Part
fragment maximum sequence parts cbor = do
  (u, c1) ← Cbor.tuple 5 cbor
  (n, c2) ← Cbor.u_int Cbor.uint32_max c1
  require (n == sequence) "UR sequence/header mismatch"
  (p, c3) ← Cbor.u_int Cbor.uint32_max c2
  require (p == parts) "UR sequence/header mismatch"
  (size, c4) ← Cbor.u_int maximum c3
  (sum, c5) ← Cbor.u_int Cbor.uint32_max c4
  (piece, c6) ← Cbor.bytes max_qr_text c5
  Cbor.end c6
  require (ltb 0 size && not (is_empty piece)) "Invalid fountain fragment"
  require (leb size (parts * length piece) && ltb ((parts - 1) * length piece) size)
      "Inconsistent fountain fragment geometry"
  ok (record { sequence = sequence; parts = parts; bytes = size; checksum = sum; fragment = piece })

-- `Require(!header_ || *header_ == header, ...)`.
pub same_stream : Option Header → Header → Bool
same_stream none h = true
same_stream (some k) h = header_eq k h

pub header_of : Part → Header
header_of p = record {
  parts = p.parts;
  bytes = p.bytes;
  checksum = p.checksum;
  fragment = length p.fragment;
}

module _ (lib : Codecs) where
  -- From the repeat check on: the fragment's number is looked up among those seen.
  pub new_or_repeat : Receiver lib → Bytes → Bytes → Part → Result Action
  new_or_repeat r type digest part = elim (find_seen part.sequence r.seen) [
    | some d ↦ do require (text_eq d digest) "Conflicting repeated UR fragment"; ok repeat
    | none ↦ do
      require (ltb (length r.seen) (4 * part.parts + 64))
          "UR scan work limit exceeded; restart scan"
      ok (add type (header_of part) digest part)
  ]

  pub multi_part : Receiver lib → Bytes → Bytes → Bytes → Result Action
  multi_part r type sequence cbor = do
    (left, right) ← or_throw (split_at b'-' sequence) "Missing UR sequence count"
    n ← number left
    parts ← number right
    require (leb parts max_ur_parts) "Too many UR fragments"
    part ← fragment (maximum_of type) n parts cbor
    require (same_stream r.header (header_of part)) "Conflicting UR stream"
    new_or_repeat r type (lib.sha256 cbor) part

  pub single_part : Receiver lib → Bytes → Bytes → Result Action
  single_part r type cbor = do
    require (not (is_some r.header)) "Single-part UR conflicts with multipart scan"
    message ← finish type cbor
    ok (complete message)

  -- A frame behind "ur:", in lower case, split at its slashes.
  pub ur_body : Receiver lib → Bytes → Option Bytes → Bytes → Result Action
  ur_body r type sequence body = do
    require (not (is_empty body) && all is_lower body) "Invalid Bytewords body"
    cbor ← or_throw (lib.bytewords body) "Invalid Bytewords checksum or encoding"
    elim sequence [ none ↦ single_part r type cbor | some text ↦ multi_part r type text cbor ]

  pub ur_frame : Receiver lib → Bytes → Result Action
  ur_frame r frame = do
    require (all is_ur_char frame) "Invalid UR character"
    let lower = map to_lower frame
    require (starts_with lower (codes "ur:")) "Expected UR v2"
    (type, rest) ← or_throw (split_at b'/' (drop 3 lower)) "Missing UR body"
    require (is_incoming type) "Unsupported incoming UR type"
    require (is_empty r.type || text_eq r.type type) "Conflicting UR type"
    elim (split_at b'/' rest) [
      | none ↦ ur_body r type none rest
      | some (sequence, body) ↦ ur_body r type (some sequence) body
    ]

  pub seed_frame : Receiver lib → Bytes → Result Action
  seed_frame r frame = do
    require (is_empty r.type) "Seed QR conflicts with multipart scan"
    ok (
        complete (record {
          type = if is_standard_seed frame then codes "seedqr" else codes "compact-seedqr";
          cbor = [];
          secret = frame;
        }))

  -- After the fragment is recorded: the decoder has the part, and its message may be complete.
  pub decoded : Receiver lib → Bool → Receiver lib × Result Bool
  decoded r false = (r, err "Invalid fountain message")
  decoded r true =
      if lib.is_failure r.decoder
      then (r, err "Invalid fountain message")
      else if lib.is_success r.decoder
      then elim (finish r.type (lib.result_message r.decoder)) [
        | err e ↦ (r, err e)
        | ok message ↦ (record r { result = some message }, ok true)
      ]
      else (r, ok true)

  pub perform : Receiver lib → Action → Receiver lib × Result Bool
  perform r (complete message) = (record r { result = some message }, ok true)
  perform r repeat = (r, ok false)
  perform r (add type header digest part) =
      let (accepted, decoder) = lib.receive_part r.decoder part in
      decoded
        (record {
          type = type;
          header = some header;
          seen = (part.sequence, digest) ∷ r.seen;
          decoder = decoder;
          result = r.result;
        })
        accepted

module _ (lib : Codecs) (cbor_lite : CborLite) where
  pub address_frame : Receiver lib → Bytes → Bytes → Result Action
  address_frame r prefix frame = do
    require (is_empty r.type) "Address conflicts with multipart scan"
    message ← address_message cbor_lite prefix frame
    ok (complete message)

  pub route : Receiver lib → Bytes → Bytes → Result Action
  route r prefix frame =
      if is_standard_seed frame || is_compact_seed lib frame
      then seed_frame lib r frame
      else if starts_with prefix (codes "ur:")
      then ur_frame lib r frame
      else address_frame r prefix frame

  -- All that `Receive` does before it changes the receiver.
  pub validate : Receiver lib → Bytes → Result Action
  validate r frame = do
    require (not (is_some r.result)) "Scan is already complete"
    require (not (is_empty frame) && leb (length frame) max_qr_text) "QR text size limit exceeded"
    route r (map to_lower (take 8 frame)) frame

  -- The receiver after a frame, with what `Receive` returned or threw.
  pub receive : Receiver lib → Bytes → Receiver lib × Result Bool
  receive r frame = elim (validate r frame) [
    | err e ↦ (r, err e)
    | ok action ↦ perform lib r action
  ]

  -- A whole scan.
  pub receive_all : Receiver lib → List Bytes → Receiver lib
  receive_all r [] = r
  receive_all r (frame ∷ frames) = receive_all (receive r frame).0 frames
