-- ===== src/Transport/Receiver/Tests.antt =====
-- Scans of concrete frames. The codecs stand for the libraries of src/transport.cpp: a body spells each
-- byte with two letters of a to p, and the decoder joins the fragments in the order that they came.
use thunderden.Base.{
  ◌+◌, ◌-◌, ◌*◌, ◌≡◌, refl, true, false, List, [], ◌∷◌, ◌++◌, Option, none, some, leb, length,
  Bytes, ok, codes,
}
use thunderden.Cbor
use thunderden.Cbor.Tests.{cbor_lite}
use thunderden.Decimal.{from_chars}
use thunderden.Transport.{Part, Codecs, number}
use thunderden.Transport.Receiver.{
  start, receive, receive_all, validate, route, ur_frame, ur_body, multi_part, new_or_repeat,
  perform, decoded, fragment, same_stream, header_of, find_seen, is_standard_seed, is_compact_seed,
}
use thunderden.Transport.Receiver.Invariant.{Inv, start-Inv, receive_all-Inv}
use thunderden.Transport.Receiver.Streams.{Grows, receive_all-Grows}
use thunderden.Transport.Receiver.Repeats.{receive_repeated}

abbrev letters : Bytes → Option Bytes
letters [] = some []
letters (c ∷ []) = none
letters (c ∷ (d ∷ s)) = elim (letters s) [
  | none ↦ none
  | some l ↦ some (((c - b'a') * 16 + (d - b'a')) ∷ l)
]

abbrev joined : List Part → Bytes
joined [] = []
joined (p ∷ parts) = joined parts ++ p.fragment

abbrev codecs : Codecs
codecs = record {
  bytewords = letters;
  base58check = λ s. none;
  sha256 = λ s. s;
  Decoder = List Part;
  new_decoder = [];
  receive_part = λ d p. (true, p ∷ d);
  is_failure = λ d. false;
  is_success = λ d. leb 2 (length d);
  result_message = joined;
}

-- The first of two parts of three bytes: 85 01 02 03 00 42 42 11.
abbrev first_frame : Bytes
first_frame = codes "ur:bytes/1-2/ifabacadaaececbb"

abbrev second_frame : Bytes
second_frame = codes "UR:BYTES/2-2/IFACACADAAECCCAA"

abbrev seed : Bytes
seed = codes "000000000000000000000000000000000000000000000011"

receive_all-Inv_example :
    Inv codecs (receive_all codecs cbor_lite (start codecs) (first_frame ∷ second_frame ∷ []))
receive_all-Inv_example =
    receive_all-Inv codecs cbor_lite (first_frame ∷ second_frame ∷ []) (start codecs)
      (start-Inv codecs)

receive_all-Grows_example :
    Grows codecs
      (start codecs)
      (receive_all codecs cbor_lite (start codecs) (first_frame ∷ seed ∷ []))
receive_all-Grows_example =
    receive_all-Grows codecs cbor_lite (first_frame ∷ seed ∷ []) (start codecs) (start-Inv codecs)

receive_repeated_example :
    receive codecs cbor_lite (receive codecs cbor_lite (start codecs) first_frame).0 first_frame
    ≡ ((receive codecs cbor_lite (start codecs) first_frame).0, ok false)
unfolding receive validate route ur_frame ur_body multi_part new_or_repeat perform decoded fragment
    same_stream header_of find_seen is_standard_seed is_compact_seed start number Cbor.tuple
    Cbor.array Cbor.u_int Cbor.head Cbor.next_byte Cbor.bytes Cbor.data_item Cbor.end from_chars
receive_repeated_example = receive_repeated codecs cbor_lite (start codecs) first_frame refl refl
