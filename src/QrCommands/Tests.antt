-- ===== src/QrCommands/Tests.antt =====
-- A request for the key at the empty path, which the user grants.
use thunderden.Base.{refl, true, [], ◌∷◌, ◌++◌, none, some, ok, Bytes, codes, replicate}
use thunderden.Cbor
use thunderden.Cbor.Encoding.{encode_head, encode_string, big_endian}
use thunderden.Cbor.Writer
use thunderden.Cbor.Tests.{cbor_lite}
use thunderden.Keys.{encode_public, public_at, derive, derive_from, root_fingerprint}
use thunderden.Policy.Tests.{core, session}
use thunderden.Transport.{QrMessage, unwrap_bytes, cbor_bytes}
use thunderden.QrCommands.{
  QrApproval, Signer, empty, handle_qr_request, status_body, command, outcome, export_key,
  read_path, ask, reply, reply_head,
}
use thunderden.QrCommands.Consent.{IsFaithful, handled_request}

abbrev pub signer : Signer core
signer = record {
  Review = Unit {0};
  chain = codes "main";
  mainnet = true;
  public_key_review = λ keys path. ok [];
  policy_review = λ policy keys. ok [];
  policy_details = λ policy keys. ok [];
  address_review = λ policy keys position address. ok [];
  address_of = λ output. some output;
  sign = λ policy keys proof psbt approve. ok none;
}

abbrev approve : QrApproval (Unit {0})
approve = record {
  export_key = some (λ lines. true);
  register_wallet = none;
  address = none;
  transaction = none;
}

abbrev request : Bytes
request = replicate 16 1

abbrev message : QrMessage
message = record {
  type = codes "bytes";
  cbor =
      (0x58 ∷ 0x1c ∷ 0x85 ∷ 0x03 ∷ 0x50 ∷ request)
      ++ ((0x64 ∷ codes "main") ++ (0x01 ∷ 0x82 ∷ 0x80 ∷ 0x00 ∷ []));
  secret = [];
}

abbrev answer : QrMessage
answer = record {
  type = codes "bytes";
  cbor =
      (Writer.bytes cbor_lite (empty core cbor_lite signer) (
        (reply_head core cbor_lite signer session request 1 0).written
        ++ (Writer.text cbor_lite
            (Writer.array cbor_lite (Writer.array cbor_lite (empty core cbor_lite signer) 2) 0)
            (encode_public core session.root true)).written)).written;
  secret = [];
}

handled_request_example :
    IsFaithful core cbor_lite signer session approve message (codes "main") (answer, 0)
unfolding handle_qr_request status_body command outcome export_key read_path ask reply reply_head
    public_at derive derive_from encode_public unwrap_bytes cbor_bytes Cbor.tuple Cbor.array
    Cbor.u_int Cbor.bytes Cbor.text Cbor.data_item Cbor.head Cbor.long_head Cbor.read_be
    Cbor.next_byte Cbor.end encode_head encode_string Writer.bytes Writer.text Writer.array
    Writer.u_int root_fingerprint big_endian
handled_request_example =
    handled_request core cbor_lite signer session approve message (codes "main") (answer, 0) refl
