-- ===== src/QrCommands/Consent.antt =====
-- src/qr_commands.cpp: what a reply shows of the user's answers.
use thunderden.Base.{
  ℕ, ◌+◌, ◌≤◌, ◌<◌, ◌≡◌, ◌⊎◌, inl, inr, refl, ap, ◌∙◌, true, false, none, ltb, ltb→lt, leb, ◌==◌,
  ==_iff, Option-cases, length, Result, ok, err, ◌>>=◌, Bytes, [], Result-cases, Ensures,
  Ensures-bind, Ensures-require, Ensures-weaken, returns, ◌++◌, Ensures-value, Bool-cases, text_eq,
  codes, arith,
}
use thunderden.Cbor
use thunderden.Cbor.Writer
use thunderden.Cbor.Writer.{CborLite}
use thunderden.Core.{Core}
use thunderden.Keys.{Keys}
use thunderden.Transport.{QrMessage, cbor_bytes, unwrap_bytes}
use thunderden.QrCommands.{
  QrApproval, Signer, command, outcome, status_body, reply_head, reply, handle_qr_request,
  max_psbt_bytes,
}
use thunderden.QrCommands.Answers.{reply_fields, IsGranted}
use thunderden.QrCommands.Commands.{granted}
use Prim.Native.String.{String}

module _ (core : Core) (lib : CborLite) (signer : Signer core) where
  module _ (keys : Keys core) (approve : QrApproval signer.Review) where
    -- The request in a message: its identifier, its network, its operation and the bytes that follow.
    abbrev pub request_fields : QrMessage → Result (Bytes × Bytes × ℕ × Bytes)
    request_fields message = do
      raw ← unwrap_bytes message.cbor
      (u, s1) ← Cbor.tuple 5 raw
      (format, s2) ← Cbor.u_int Cbor.uint32_max s1
      (request, s3) ← Cbor.bytes 16 s2
      (network, s4) ← Cbor.text 16 s3
      (operation, s5) ← Cbor.u_int Cbor.uint32_max s4
      ok (request, network, operation, s5)

    -- Why a reply has no body, by its status: the command gave none, it threw, the network is another, or
    -- the operation is not known.
    abbrev pub IsRefusal : Bytes → ℕ → Bytes → ℕ → Type 0
    IsRefusal network operation s status =
        ((status ≡ 1) × (command core lib signer keys approve operation s ≡ ok none))
        ⊎ ((status ≡ 2)
            × ((thrown : String) × (command core lib signer keys approve operation s ≡ err thrown)))
        ⊎ ((status ≡ 4) × (text_eq network signer.chain ≡ false))
        ⊎ ((status ≡ 5) × (4 < operation))

    -- What the code answers a request with: status 0 with the body of a granted command of the selected
    -- network, or a refusal.
    IsAnswer : Bytes → ℕ → Bytes → ℕ × Bytes → Type 0
    IsAnswer network operation s answer =
        ((body : Bytes) × (answer ≡ (0, body))
          × (text_eq network signer.chain ≡ true)
          × (operation ≤ 4)
          × IsGranted core lib signer keys approve operation s body)
        ⊎ ((status : ℕ) × (answer ≡ (status, [])) × IsRefusal network operation s status)

    -- The bytes of a reply: its fields with the body of a granted command of the selected network behind
    -- status 0, or with an empty array behind the status of a refusal.
    abbrev pub IsReply : Bytes → Bytes → ℕ → Bytes → ℕ → Bytes → Type 0
    IsReply request network operation s status raw =
        ((status ≡ 0)
          × ((body : Bytes) × (raw
                ≡ (reply_fields core lib signer keys request operation 0).written ++ body)
              × (text_eq network signer.chain ≡ true)
              × (operation ≤ 4)
              × IsGranted core lib signer keys approve operation s body))
        ⊎ ((raw
              ≡ (Writer.array lib (reply_fields core lib signer keys request operation status)
                  0).written)
            × IsRefusal network operation s status)

    -- The reply wraps the bytes that answer the request in the message.
    abbrev pub IsFaithful : QrMessage → Bytes → QrMessage × ℕ → Type 0
    IsFaithful message chain_after r =
        (request : Bytes) × (network : Bytes) × (operation : ℕ) × (s : Bytes) × (raw : Bytes)
        × (request_fields message ≡ ok (request, network, operation, s))
        × (length request ≡ 16)
        × (text_eq chain_after signer.chain ≡ true)
        × (cbor_bytes lib raw ≡ ok r.0.cbor)
        × (r.0.type ≡ codes "bytes")
        × (r.0.secret ≡ [])
        × IsReply request network operation s r.1 raw

    not-zero :
        (network : Bytes) (operation : ℕ) (s : Bytes) (status : ℕ)
        → IsRefusal network operation s status
        → (status == 0) ≡ false
    not-zero network operation s status (inl h) = rw (h.0) refl
    not-zero network operation s status (inr (inl h)) = rw (h.0) refl
    not-zero network operation s status (inr (inr (inl h))) = rw (h.0) refl
    not-zero network operation s status (inr (inr (inr h))) = rw (h.0) refl

    reply-IsReply :
        (request network : Bytes) (operation : ℕ) (s : Bytes) (answer : ℕ × Bytes)
        → IsAnswer network operation s answer
        → Ensures
            (λ (r : QrMessage × ℕ).
              (raw : Bytes) × (cbor_bytes lib raw ≡ ok r.0.cbor)
              × (r.0.type ≡ codes "bytes")
              × (r.0.secret ≡ [])
              × IsReply request network operation s r.1 raw)
            (reply core lib signer keys request operation answer)
    unfolding reply reply_head IsAnswer
    reply-IsReply request network operation s answer (inl (body, e, net, known, grant)) = rw e (
        Ensures-bind
          (cbor_bytes lib ((reply_fields core lib signer keys request operation 0).written ++ body))
          λ cbor wrapped.
            returns (_, wrapped, refl, refl, inl (refl, (body, refl, net, known, grant))))
    reply-IsReply request network operation s answer (inr (status, e, refusal)) =
        rw (e, not-zero network operation s status refusal)
          (Ensures-bind
            (cbor_bytes lib
              (Writer.array lib (reply_fields core lib signer keys request operation status)
                0).written)
            λ cbor wrapped. returns (_, wrapped, refl, refl, inr (refl, refusal)))

    status_body-IsAnswer :
        (network : Bytes) (operation : ℕ) (s : Bytes)
        → IsAnswer network operation s
            (status_body core lib signer keys approve network operation s)
    unfolding status_body outcome IsAnswer
    status_body-IsAnswer network operation s = elim (Bool-cases (text_eq network signer.chain)) [
      | inr n ↦ inr (4, rw n refl, inr (inr (inl (refl, n))))
      | inl n ↦ elim (Bool-cases (ltb 4 operation)) [
        | inl l ↦ inr (5, rw (n, l) refl, inr (inr (inr (refl, ltb→lt 4 operation l))))
        | inr l ↦ elim (Result-cases (command core lib signer keys approve operation s)) [
          | inr (thrown, e) ↦ inr (2, rw (n, l, e) refl, inr (inl (refl, (thrown, e))))
          | inl (o, e) ↦ elim (Option-cases o) [
            | inl k ↦ inr (1, rw (n, l, e, k) refl, inl (refl, e ∙ ap ok k))
            | inr (body, k) ↦ inl (
              body,
              rw (n, l, e, k) refl,
              n,
              at_most operation l,
              granted core lib signer keys approve operation s body (e ∙ ap ok k),
            )
          ]
        ]
      ]
    ]
      where
        at_most : (n : ℕ) → ltb 4 n ≡ false → n ≤ 4
        at_most n h = ground arith

    replied :
        (message : QrMessage) (chain_after : Bytes)
        → Ensures
            (IsFaithful message chain_after)
            (handle_qr_request core lib signer message keys approve chain_after)
    unfolding handle_qr_request
    replied message chain_after = Ensures-require (text_eq message.type (codes "bytes")) _ λ _.
        Ensures-bind (unwrap_bytes message.cbor) λ raw e0.
          Ensures-require (leb (length raw) (max_psbt_bytes + 65536)) _ λ _.
            Ensures-bind (Cbor.tuple 5 raw) λ (u, s1) e1.
              Ensures-bind (Cbor.u_int Cbor.uint32_max s1) λ (format, s2) e2.
                Ensures-require (format == 3) _ λ _.
                  Ensures-bind (Cbor.bytes 16 s2) λ (request, s3) e3.
                    Ensures-require (length request == 16) _ λ size.
                      Ensures-bind (Cbor.text 16 s3) λ (network, s4) e4.
                        Ensures-bind (Cbor.u_int Cbor.uint32_max s4) λ (operation, s5) e5.
                          let answer =
                            status_body core lib signer keys approve network operation s5 in
                          Ensures-require (text_eq chain_after signer.chain) _ λ kept.
                            Ensures-weaken
                              (λ r (raw, wrapped, type, secret, is_reply). (
                                request,
                                network,
                                operation,
                                s5,
                                raw,
                                rw (e0, e1, e2, e3, e4, e5) refl,
                                (==_iff (length request) 16).0 size,
                                kept,
                                wrapped,
                                type,
                                secret,
                                is_reply,
                              ))
                              (reply-IsReply request network operation s5 answer
                                (status_body-IsAnswer network operation s5))

    -- A reply is of type `bytes` and wraps an array of eight: the format 3, the identifier, of 16
    -- bytes, of the request in the message, the selected network, which is still selected when the
    -- command has ended, the seed's fingerprint, the version, the request's operation, a status and a
    -- body. It has status 0 only for the selected network and an operation of at most 4, with the body
    -- of a command that was granted: operation 0 is answered with an empty array; for operation 1 the
    -- user said yes to the lines that end with the text of the key at the requested path, and the body
    -- states that path and that text; for 2 the user said yes to the review of the requested policy,
    -- which is named, with its ID and descriptor, and the body states its ID and tag; for 3 the
    -- requested policy is authorized with its proof, the user said yes to the review of the address
    -- that it has at the requested position, and the body states that address; for 4 that policy is
    -- authorized, and signing the requested transaction gave the result that the body states.
    -- Otherwise an empty array stands for the body, with status 1 where the command gave none, 2 where
    -- it threw, 4 for another network or 5 for a greater operation.
    pub handled_request :
        (message : QrMessage) (chain_after : Bytes) (r : QrMessage × ℕ)
        → handle_qr_request core lib signer message keys approve chain_after ≡ ok r
        → IsFaithful message chain_after r
    handled_request message chain_after r = Ensures-value (replied message chain_after) r
