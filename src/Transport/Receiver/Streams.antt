-- ===== src/Transport/Receiver/Streams.antt =====
-- Collected data is never replaced: what later frames can do to the state of a scan, and what a frame
-- that is scanned twice does.
use thunderden.Base.{
  ℕ, ◌≡◌, refl, ◌∙◌, true, not, ◌||◌, List, [], ◌∷◌, Option, none, some, is_empty, is_some, ok,
  text_eq, text_eq→eq, Bytes, Ensures-value, not-is_some, require-eq-ok, Result-cases, inl, inr,
  arith,
}
use thunderden.Cbor.Writer.{CborLite}
use thunderden.Transport.{QrMessage, Header, Part, Codecs}
use thunderden.Transport.Receiver.{
  Receiver, Action, complete, repeat, add, find_seen, is_incoming, same_stream, validate, perform,
  receive, receive_all,
}
use thunderden.Transport.Receiver.Checks.{Allowed, validate-Allowed}
use thunderden.Transport.Receiver.Invariant.{
  Inv, header_eq→eq, incoming_type, decoded_cases, receive-Inv,
}

module _ (lib : Codecs) where
  -- All that `r` has collected is still in `r'`: the stream, each fragment's digest, and a result.
  pub record Grows (r r' : Receiver lib) : Type 0 where
    pub stream : (h : Header) → r.header ≡ some h → (r'.header ≡ some h) × (r'.type ≡ r.type)
    pub seen : (k : ℕ) (d : Bytes) → find_seen k r.seen ≡ some d → find_seen k r'.seen ≡ some d
    pub result : (m : QrMessage) → r.result ≡ some m → r'.result ≡ some m

  Grows-refl : (r : Receiver lib) → Grows r r
  Grows-refl r = record { stream = λ h e. (e, refl); seen = λ k d e. e; result = λ m e. e }

  Grows-trans : (a b c : Receiver lib) → Grows a b → Grows b c → Grows a c
  Grows-trans a b c g k = record {
    stream = λ h e. let (e', t) = g.stream h e in let (e'', t') = k.stream h e' in (e'', t' ∙ t);
    seen = λ n d e. k.seen n d (g.seen n d e);
    result = λ m e. k.result m (g.result m e);
  }

  add-stream :
      (old : Option Header) (type old_type : Bytes) (k h : Header)
      → is_incoming old_type ≡ true
      → old ≡ some k
      → same_stream old h ≡ true
      → (is_empty old_type || text_eq old_type type) ≡ true
      → (h ≡ k) × (type ≡ old_type)
  unfolding same_stream
  add-stream none type old_type k h known e same st = cc
  add-stream (some j) type old_type k h known e same st = (
    ground (arith, header_eq→eq lib j h same),
    ground (arith, incoming_type lib old_type known, text_eq→eq old_type type),
  )

  find_seen-add :
      (n : ℕ) (digest : Bytes) (seen : List (ℕ × Bytes)) (k : ℕ) (d : Bytes)
      → find_seen n seen ≡ none
      → find_seen k seen ≡ some d
      → find_seen k ((n, digest) ∷ seen) ≡ some d
  unfolding find_seen
  find_seen-add n digest seen k d fresh e = ground arith

  known_stream :
      (r : Receiver lib) (h : Header) → Inv lib r → r.header ≡ some h → is_incoming r.type ≡ true
  known_stream r h v e = (rw e at v.stream).0.0

  add-Grows :
      (r : Receiver lib) (type : Bytes) (h : Header) (digest : Bytes) (part : Part)
      (decoder : lib.Decoder) (result : Option QrMessage)
      → Inv lib r
      → Allowed lib r (add type h digest part)
      → Grows r (record {
        type = type;
        header = some h;
        seen = (part.sequence, digest) ∷ r.seen;
        decoder = decoder;
        result = result;
      })
  add-Grows r type h digest part decoder result v
        (same, bounded, stream, known, fresh, room, open') =
      record {
        stream = λ k e.
            let (eh, et) =
              add-stream r.header type r.type k h (known_stream r k v e) e stream known in
            (rw eh refl, et);
        seen = λ k d e. find_seen-add part.sequence digest r.seen k d fresh e;
        result = λ m e. cc;
      }

  perform-Grows :
      (r : Receiver lib) (action : Action)
      → Inv lib r
      → Allowed lib r action
      → (r.result ≡ none)
      → Grows r (perform lib r action).0
  unfolding perform
  perform-Grows r (complete m) v a open' = record {
    stream = λ h e. (e, refl);
    seen = λ k d e. e;
    result = λ n e. cc;
  }
  perform-Grows r repeat v a open' = Grows-refl r
  perform-Grows r (add type h digest part) v a open' =
      decoded_cases lib (Grows r) _ (lib.receive_part r.decoder part).0
        (add-Grows r type h digest part _ r.result v a)
        (λ m _. add-Grows r type h digest part _ (some m) v a)

  validate_open :
      (cbor_lite : CborLite) (r : Receiver lib) (frame : Bytes) (action : Action)
      → validate lib cbor_lite r frame ≡ ok action
      → r.result ≡ none
  unfolding validate
  validate_open cbor_lite r frame action e =
      not-is_some _ (require-eq-ok (not (is_some r.result)) _ _ e).0

  -- Whatever the frame, `Receive` replaces nothing: the stream's type and header, the digest of every
  -- fragment seen, and a result, are still there afterwards.
  pub receive-Grows :
      (cbor_lite : CborLite) (r : Receiver lib) (frame : Bytes)
      → Inv lib r
      → Grows r (receive lib cbor_lite r frame).0
  unfolding receive
  receive-Grows cbor_lite r frame v = elim (Result-cases (validate lib cbor_lite r frame)) [
    | inl (action, e) ↦
        rw (e, receive)
          (perform-Grows r action v
            (Ensures-value (validate-Allowed lib cbor_lite r frame) action e)
            (validate_open cbor_lite r frame action e))
    | inr (message, e) ↦ rw (e, receive) (Grows-refl r)
  ]

  -- A conflicting stream never replaces collected data, over any sequence of further frames.
  pub receive_all-Grows :
      (cbor_lite : CborLite) (frames : List Bytes) (r : Receiver lib)
      → Inv lib r
      → Grows r (receive_all lib cbor_lite r frames)
  unfolding receive_all
  receive_all-Grows cbor_lite [] r v = Grows-refl r
  receive_all-Grows cbor_lite (frame ∷ frames) r v =
      let next = (receive lib cbor_lite r frame).0 in
      Grows-trans r next _ (receive-Grows cbor_lite r frame v)
        (receive_all-Grows cbor_lite frames next (receive-Inv lib cbor_lite r frame v))
