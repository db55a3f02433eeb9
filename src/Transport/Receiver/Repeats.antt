-- ===== src/Transport/Receiver/Repeats.antt =====
-- src/transport.cpp, URReceiver: frames that a camera shows again.
use thunderden.Base.{
  ℕ, ◌+◌, ◌*◌, ◌≡◌, refl, Bool, true, false, not, ◌&&◌, ◌||◌, List, ◌∷◌, map, Option, none, some,
  is_empty, length, is_some, leb, Result, ok, err, text_eq, text_eq_refl, Bytes, Result-cases,
  Option-cases, inl, inr, arith, Bool-cases, require-eq-ok, >>=-eq-ok, or_throw, split_at,
  starts_with, codes, all, is_lower, to_lower, drop, ltb, take,
}
use Prim.Native.String.{String}
use thunderden.Cbor.Writer.{CborLite}
use thunderden.Transport.{Header, header_eq, Part, Codecs, max_qr_text, number, max_ur_parts}
use thunderden.Transport.Receiver.{
  Receiver, Action, complete, repeat, add, find_seen, is_incoming, same_stream, header_of, finish,
  fragment, maximum_of, new_or_repeat, single_part, multi_part, ur_body, ur_frame, seed_frame,
  address_frame, address_message, route, is_ur_char, is_standard_seed, is_compact_seed, validate,
  decoded, perform, receive,
}
use thunderden.Transport.Receiver.Invariant.{decoded_cases}

header_eq_refl : (h : Header) → header_eq h h ≡ true
header_eq_refl h = ground arith

-- `r'` is a state in which a fragment with these fields was recorded.
module _ (lib : Codecs) (r r' : Receiver lib) (t d : Bytes) (h : Header) (p : Part)
    (type_is : r'.type ≡ t) (header_is : r'.header ≡ some h)
    (seen_is : find_seen p.sequence r'.seen ≡ some d) (open' : not (is_some r'.result) ≡ true) where
  new_or_repeat_again :
      (type digest : Bytes) (part : Part)
      → new_or_repeat lib r type digest part ≡ ok (add t h d p)
      → (same_stream r'.header (header_of part) ≡ true)
        × (text_eq r'.type type ≡ true)
        × (new_or_repeat lib r' type digest part ≡ ok repeat)
  unfolding new_or_repeat same_stream
  new_or_repeat_again type digest part e = elim (Option-cases (find_seen part.sequence r.seen)) [
    | inr (old, found) ↦
        let (c, e2) =
          require-eq-ok (text_eq old digest) _ (ok repeat) (rw (found, new_or_repeat) at e) in
        cc
    | inl missing ↦
        let (c, e2) =
          require-eq-ok (ltb (length r.seen) (4 * part.parts + 64)) _
            (ok (add type (header_of part) digest part)) (rw (missing, new_or_repeat) at e) in
        let part_is : part ≡ p = cc in
        let type_eq : t ≡ type = cc in
        let digest_eq : d ≡ digest = cc in
        let header_eq' : h ≡ header_of part = cc in
        (
          rw (header_is, header_eq') (header_eq_refl (header_of part)),
          rw (type_is, type_eq) (text_eq_refl type),
          rw (part_is, seen_is, new_or_repeat) (rw (digest_eq, text_eq_refl digest) refl),
        )
  ]

  -- From here on `Again m m'` says: if `m` records that fragment, `m'` calls it a repeat.
  abbrev Again : Result Action → Result Action → Type 0
  Again m m' = m ≡ ok (add t h d p) → m' ≡ ok repeat

  multi_part_again :
      (type sequence cbor : Bytes)
      → multi_part lib r type sequence cbor ≡ ok (add t h d p)
      → (text_eq r'.type type ≡ true) × (multi_part lib r' type sequence cbor ≡ ok repeat)
  unfolding multi_part
  multi_part_again type sequence cbor e =
      let ((left, right), e1, f1) = >>=-eq-ok (or_throw (split_at b'-' sequence) _) _ e in
      let (n, e2, f2) = >>=-eq-ok (number left) _ f1 in
      let (parts, e3, f3) = >>=-eq-ok (number right) _ f2 in
      let (few, f4) = require-eq-ok (leb parts max_ur_parts) _ _ f3 in
      let (part, e5, f5) = >>=-eq-ok (fragment (maximum_of type) n parts cbor) _ f4 in
      let (stream, f6) = require-eq-ok (same_stream r.header (header_of part)) _ _ f5 in
      let (stream', type', again) = new_or_repeat_again type (lib.sha256 cbor) part f6 in
      (type', rw (e1, e2, e3, few, e5, stream') again)

  ur_body_again :
      (type : Bytes) (sequence : Option Bytes) (body : Bytes)
      → ur_body lib r type sequence body ≡ ok (add t h d p)
      → (text_eq r'.type type ≡ true) × (ur_body lib r' type sequence body ≡ ok repeat)
  unfolding ur_body single_part
  ur_body_again type none body e =
      let (c, f1) = require-eq-ok (not (is_empty body) && all is_lower body) _ _ e in
      let (cbor, e2, f2) = >>=-eq-ok (or_throw (lib.bytewords body) _) _ f1 in
      let (c3, f3) = require-eq-ok (not (is_some r.header)) _ _ f2 in
      let (m, e4, f4) = >>=-eq-ok (finish type cbor) _ f3 in cc
  ur_body_again type (some text) body e =
      let (c, f1) = require-eq-ok (not (is_empty body) && all is_lower body) _ _ e in
      let (cbor, e2, f2) = >>=-eq-ok (or_throw (lib.bytewords body) _) _ f1 in
      let (type', again) = multi_part_again type text cbor f2 in (type', rw (c, e2) again)

  or_true : (a b : Bool) → b ≡ true → (a || b) ≡ true
  or_true a b e = ground arith

  ur_frame-Again : (frame : Bytes) → Again (ur_frame lib r frame) (ur_frame lib r' frame)
  unfolding ur_frame
  ur_frame-Again frame e =
      let (c1, f1) = require-eq-ok (all is_ur_char frame) _ _ e in
      let (c2, f2) = require-eq-ok (starts_with (map to_lower frame) (codes "ur:")) _ _ f1 in
      let ((type, rest), e3, f3) =
        >>=-eq-ok (or_throw (split_at b'/' (drop 3 (map to_lower frame))) _) _ f2 in
      let (c4, f4) = require-eq-ok (is_incoming type) _ _ f3 in
      let (c5, f5) = require-eq-ok (is_empty r.type || text_eq r.type type) _ _ f4 in
      elim (Option-cases (split_at b'/' rest)) [
        | inl none_ ↦
            let (type', again) = ur_body_again type none rest (rw none_ at f5) in
            rw (c1, c2, e3, c4, or_true (is_empty r'.type) _ type', none_) again
        | inr ((sequence, body), found) ↦
            let (type', again) = ur_body_again type (some sequence) body (rw found at f5) in
            rw (c1, c2, e3, c4, or_true (is_empty r'.type) _ type', found) again
      ]

  seed_adds_nothing : (frame : Bytes) → Again (seed_frame lib r frame) (seed_frame lib r' frame)
  unfolding seed_frame
  seed_adds_nothing frame e = let (c, f) = require-eq-ok (is_empty r.type) _ _ e in cc

  module _ (cbor_lite : CborLite) where
    address_adds_nothing :
        (prefix frame : Bytes)
        → Again
            (address_frame lib cbor_lite r prefix frame)
            (address_frame lib cbor_lite r' prefix frame)
    unfolding address_frame
    address_adds_nothing prefix frame e =
        let (c, f) = require-eq-ok (is_empty r.type) _ _ e in
        let (m, e2, f2) = >>=-eq-ok (address_message cbor_lite prefix frame) _ f in cc

    route-Again :
        (prefix frame : Bytes)
        → Again (route lib cbor_lite r prefix frame) (route lib cbor_lite r' prefix frame)
    unfolding route
    route-Again prefix frame e =
        elim (Bool-cases (is_standard_seed frame || is_compact_seed lib frame)) [
          | inl s ↦ rw s (seed_adds_nothing frame (rw s at e))
          | inr s ↦ elim (Bool-cases (starts_with prefix (codes "ur:"))) [
            | inl u ↦ rw (s, u) (ur_frame-Again frame (rw (s, u) at e))
            | inr u ↦ rw (s, u) (address_adds_nothing prefix frame (rw (s, u) at e))
          ]
        ]

    validate-Again :
        (frame : Bytes) → Again (validate lib cbor_lite r frame) (validate lib cbor_lite r' frame)
    unfolding validate
    validate-Again frame e =
        let (c1, f1) = require-eq-ok (not (is_some r.result)) _ _ e in
        let (c2, f2) =
          require-eq-ok (not (is_empty frame) && leb (length frame) max_qr_text) _ _ f1 in
        rw (open', c2) (route-Again (map to_lower (take 8 frame)) frame f2)

module _ (lib : Codecs) (cbor_lite : CborLite) where
  -- The decoder's part of `Receive` leaves what was recorded.
  abbrev Recorded : Receiver lib → Receiver lib → Type 0
  Recorded r s = (s.type ≡ r.type) × (s.header ≡ r.header) × (s.seen ≡ r.seen)

  decoded-Recorded : (r : Receiver lib) (accepted : Bool) → Recorded r (decoded lib r accepted).0
  decoded-Recorded r accepted =
      decoded_cases lib (Recorded r) r accepted (refl, refl, refl) (λ m e. (refl, refl, refl))

  find_seen_here :
      (n : ℕ) (d : Bytes) (seen : List (ℕ × Bytes)) → find_seen n ((n, d) ∷ seen) ≡ some d
  unfolding find_seen
  find_seen_here n d seen = ground arith

  receive_ok :
      (r : Receiver lib) (frame : Bytes) (action : Action)
      → validate lib cbor_lite r frame ≡ ok action
      → receive lib cbor_lite r frame ≡ perform lib r action
  unfolding receive
  receive_ok r frame action e = rw (e, receive) refl

  receive_err :
      (r : Receiver lib) (frame : Bytes) (message : String)
      → validate lib cbor_lite r frame ≡ err message
      → receive lib cbor_lite r frame ≡ (r, err message)
  unfolding receive
  receive_err r frame message e = rw (e, receive) refl

  performed :
      (r : Receiver lib) (frame : Bytes) (action : Action)
      → validate lib cbor_lite r frame ≡ ok action
      → (perform lib r action).1 ≡ ok true
      → (perform lib r action).0.result ≡ none
      → receive lib cbor_lite (perform lib r action).0 frame ≡ ((perform lib r action).0, ok false)
  unfolding perform
  performed r frame (complete m) e accepted open' = cc
  performed r frame repeat e accepted open' = cc
  performed r frame (add type h digest part) e accepted open' =
      let next : Receiver lib = record {
        type = type;
        header = some h;
        seen = (part.sequence, digest) ∷ r.seen;
        decoder = (lib.receive_part r.decoder part).1;
        result = r.result;
      } in
      let out : Receiver lib = (decoded lib next (lib.receive_part r.decoder part).0).0 in
      let (et, eh, es) = decoded-Recorded next (lib.receive_part r.decoder part).0 in
      let again : validate lib cbor_lite out frame ≡ ok repeat =
        validate-Again lib r out type digest h part et eh
          (rw es (find_seen_here part.sequence digest r.seen)) (rw open' refl) cbor_lite frame e in
      receive_ok out frame repeat again

  -- A fragment that is accepted before the scan is complete is, when the same frame is scanned again, a
  -- repeat: `Receive` returns false and leaves the receiver as it was.
  pub receive_repeated :
      (r : Receiver lib) (frame : Bytes)
      → (receive lib cbor_lite r frame).1 ≡ ok true
      → (receive lib cbor_lite r frame).0.result ≡ none
      → receive lib cbor_lite (receive lib cbor_lite r frame).0 frame
        ≡ ((receive lib cbor_lite r frame).0, ok false)
  receive_repeated r frame accepted open' = elim (Result-cases (validate lib cbor_lite r frame)) [
    | inl (action, e) ↦
        let step = receive_ok r frame action e in
        rw step (performed r frame action e (rw step at accepted) (rw step at open'))
    | inr (message, e) ↦ let step = receive_err r frame message e in cc (rw step at accepted)
  ]
