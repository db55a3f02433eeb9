-- ===== src/Transport.antt =====
-- src/transport.h and src/transport.cpp: QR messages, the receiver of scanned frames and the sender.
-- SHA-256, Base58Check, Bytewords and the fountain code are libraries, taken as parameters.
pub mod Payload
pub mod Receiver
pub mod Sender
pub mod Tests
use thunderden.Base.{
  ℕ, ◌+◌, ◌-◌, ◌*◌, ◌/◌, ◌^◌, Bool, true, false, not, ◌&&◌, ◌||◌, List, [], ◌∷◌, ◌++◌, map, Option,
  none, some, ltb, leb, ◌==◌, if◌then◌else◌, is_some, length, take, drop, all, is_empty, Result, ok,
  err, ◌>>=◌, ◌>>◌, require, or_throw, codes, text_eq, starts_with, contains, is_digit, is_lower,
  is_upper, to_lower, to_upper, split_at, Bytes,
}
use thunderden.Cbor
use thunderden.Cbor.Writer.{CborLite}
use thunderden.Decimal.{from_chars, starts_zero}

abbrev pub max_wallet_setup : ℕ
max_wallet_setup = 16384

abbrev pub max_ur_message : ℕ
max_ur_message = 2 * 1024 * 1024 + 65536

abbrev pub max_ur_parts : ℕ
max_ur_parts = 1024

abbrev pub max_qr_text : ℕ
max_qr_text = 4296

abbrev pub max_address_qr : ℕ
max_address_qr = 512

-- The seed payload stands apart from the public CBOR, in `secret`.
pub record QrMessage : Type 0 where
  pub type : Bytes
  pub cbor : Bytes
  pub secret : Bytes

pub record Header : Type 0 where
  pub parts : ℕ
  pub bytes : ℕ
  pub checksum : ℕ
  pub fragment : ℕ

abbrev pub header_eq : Header → Header → Bool
header_eq a b =
    a.parts == b.parts
    && (a.bytes == b.bytes && (a.checksum == b.checksum && a.fragment == b.fragment))

-- ur::FountainEncoder::Part.
pub record Part : Type 0 where
  pub sequence : ℕ
  pub parts : ℕ
  pub bytes : ℕ
  pub checksum : ℕ
  pub fragment : Bytes

-- What the receiver calls: `bytewords` is `Bytewords::decode` of the minimal style, `none` where it
-- throws; `base58check` is `DecodeBase58Check` with a limit of 21 bytes; the decoder is an object
-- whose call `receive_part` changes it.
pub record Codecs : Type 1 where
  pub bytewords : Bytes → Option Bytes
  pub base58check : Bytes → Option Bytes
  pub sha256 : Bytes → Bytes
  pub Decoder : Type 0
  pub new_decoder : Decoder
  pub receive_part : Decoder → Part → Bool × Decoder
  pub is_failure : Decoder → Bool
  pub is_success : Decoder → Bool
  pub result_message : Decoder → Bytes

unfoldable pub number : Bytes → Result ℕ
unfolding from_chars
number text = do
  (value, rest) ← or_throw (from_chars (2 ^ 32) text) "Invalid UR sequence number"
  require (is_empty rest && (ltb 0 value && not (starts_zero text))) "Invalid UR sequence number"
  ok value

unfoldable pub cbor_bytes : CborLite → Bytes → Result Bytes
cbor_bytes lib b = do
  require (leb (length b) (max_ur_message - 9)) "UR message size limit exceeded"
  ok (lib.encode_bytes [] b)

unfoldable pub unwrap_bytes : Bytes → Result Bytes
unwrap_bytes cbor = do
  require (leb (length cbor) max_ur_message) "UR message size limit exceeded"
  (b, rest) ← Cbor.bytes max_ur_message cbor
  Cbor.end rest
  ok b
