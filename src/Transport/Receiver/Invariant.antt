-- ===== src/Transport/Receiver/Invariant.antt =====
-- src/transport.cpp, URReceiver: the invariant of a scan, over any frames.
use thunderden.Base.{
  ℕ, ◌+◌, ◌*◌, ◌≤◌, ◌≡◌, refl, Bool, true, false, ◌||◌, List, [], ◌∷◌, Option, none, some, is_empty,
  length, ok, text_eq, Bytes, Ensures-value, Result-cases, inl, inr, arith, Bool-cases,
}
use thunderden.Cbor.Writer.{CborLite}
use thunderden.Transport.{QrMessage, Header, header_eq, Part, Codecs}
use thunderden.Transport.Receiver.{
  Receiver, Action, complete, repeat, add, start, find_seen, is_incoming, finish, same_stream,
  header_of, validate, decoded, perform, receive, receive_all,
}
use thunderden.Transport.Receiver.Checks.{
  IsBounded, IsMessage, Allowed, validate-Allowed, finish-IsMessage,
}

-- No fragment number stands twice.
abbrev pub Distinct : List (ℕ × Bytes) → Type 0
Distinct [] = Unit {0}
Distinct ((k, d) ∷ m) = (find_seen k m ≡ none) × Distinct m

-- Before the first fragment nothing is recorded; after it the stream is bounded, each number was
-- recorded once, and the work limit holds.
abbrev pub IsStream : Bytes → Option Header → List (ℕ × Bytes) → Type 0
IsStream type none seen = (type ≡ []) × (seen ≡ [])
IsStream type (some h) seen = IsBounded type h × (length seen ≤ 4 * h.parts + 64) × Distinct seen

abbrev pub IsResult : Option QrMessage → Type 0
IsResult none = Unit {0}
IsResult (some m) = IsMessage m

module _ (lib : Codecs) where
  pub record Inv (r : Receiver lib) : Type 0 where
    pub stream : IsStream r.type r.header r.seen
    pub finished : IsResult r.result

  pub start-Inv : Inv (start lib)
  unfolding start
  start-Inv = record { stream = (refl, refl); finished = tt }

  pub header_eq→eq : (a b : Header) → header_eq a b ≡ true → a ≡ b
  header_eq→eq a b h = ground arith

  pub incoming_type : (type : Bytes) → is_incoming type ≡ true → is_empty type ≡ false
  incoming_type [] h = cc
  incoming_type (c ∷ s) h = refl

  -- The stream with one more fragment.
  add-IsStream :
      (type old : Bytes) (header : Option Header) (seen : List (ℕ × Bytes)) (digest : Bytes)
      (part : Part)
      → IsStream old header seen
      → IsBounded type (header_of part)
      → same_stream header (header_of part) ≡ true
      → (is_empty old || text_eq old type) ≡ true
      → find_seen part.sequence seen ≡ none
      → length seen + 1 ≤ 4 * part.parts + 64
      → IsStream type (some (header_of part)) ((part.sequence, digest) ∷ seen)
  unfolding same_stream find_seen header_of
  add-IsStream type old none seen digest part s b same st fresh room =
      (b, omega arith, (fresh, rw s.1 tt))
  add-IsStream type old (some h) seen digest part s b same st fresh room =
      (b, omega arith, (fresh, s.2))

  -- The receiver after the decoder's part: as it was, or with the message that `finish` let through.
  pub decoded_cases {ℓ} :
      (P : Receiver lib → Type ℓ) (r : Receiver lib) (accepted : Bool)
      → P r
      → ((m : QrMessage)
          → finish r.type (lib.result_message r.decoder) ≡ ok m
          → P (record r { result = some m }))
      → P (decoded lib r accepted).0
  unfolding decoded
  decoded_cases P r false same done = same
  decoded_cases P r true same done = elim (Bool-cases (lib.is_failure r.decoder)) [
    | inl f ↦ rw f same
    | inr f ↦ elim (Bool-cases (lib.is_success r.decoder)) [
      | inr s ↦ rw (f, s) same
      | inl s ↦ elim (Result-cases (finish r.type (lib.result_message r.decoder))) [
        | inl (m, e) ↦ rw (f, s, e) (done m e)
        | inr (x, e) ↦ rw (f, s, e) same
      ]
    ]
  ]

  decoded-Inv :
      (r : Receiver lib) (accepted : Bool)
      → is_incoming r.type ≡ true
      → Inv r
      → Inv (decoded lib r accepted).0
  decoded-Inv r accepted known v = decoded_cases Inv r accepted v λ m e. record {
    stream = v.stream;
    finished = Ensures-value (finish-IsMessage r.type _ known) m e;
  }

  perform-Inv :
      (r : Receiver lib) (action : Action)
      → Inv r
      → Allowed lib r action
      → Inv (perform lib r action).0
  unfolding perform
  perform-Inv r (complete m) v a = record { stream = v.stream; finished = a }
  perform-Inv r repeat v a = v
  perform-Inv r (add type h digest part) v a =
      let (same, bounded, stream, known, fresh, room, open') = a in
      let added : IsStream type (some h) ((part.sequence, digest) ∷ r.seen) = rw same (
        add-IsStream type r.type r.header r.seen digest part v.stream (rw (← same) bounded)
          (rw (← same) stream) known fresh (omega arith)) in
      decoded-Inv _ (lib.receive_part r.decoder part).0 bounded.0
        (record { stream = added; finished = v.finished })

  -- Every frame keeps the invariant, whether it is accepted, repeated or refused.
  pub receive-Inv :
      (cbor_lite : CborLite) (r : Receiver lib) (frame : Bytes)
      → Inv r
      → Inv (receive lib cbor_lite r frame).0
  unfolding receive
  receive-Inv cbor_lite r frame v = elim (Result-cases (validate lib cbor_lite r frame)) [
    | inl (action, e) ↦
        rw (e, receive)
          (perform-Inv r action v (Ensures-value (validate-Allowed lib cbor_lite r frame) action e))
    | inr (message, e) ↦ rw (e, receive) v
  ]

  -- After any scan: what is recorded is one bounded stream, with no fragment number twice and the work
  -- limit respected, and a result is a seed, a payload within its limits, or an address.
  pub receive_all-Inv :
      (cbor_lite : CborLite) (frames : List Bytes) (r : Receiver lib)
      → Inv r
      → Inv (receive_all lib cbor_lite r frames)
  unfolding receive_all
  receive_all-Inv cbor_lite [] r v = v
  receive_all-Inv cbor_lite (frame ∷ frames) r v =
      receive_all-Inv cbor_lite frames (receive lib cbor_lite r frame).0
        (receive-Inv cbor_lite r frame v)
