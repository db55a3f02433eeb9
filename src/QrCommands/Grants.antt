-- ===== src/QrCommands/Grants.antt =====
-- src/qr_commands.cpp: what holds of each command where its reply has a body.
use thunderden.Base.{
  ◌≡◌, refl, ap, ◌∙◌, Bool, true, false, not, Option, none, some, if◌then◌else◌, is_empty, is_some,
  ok, Bytes, or_throw, or_throw-eq-ok, Ensures, returns, Ensures-bind, Ensures-require,
  Ensures-then, Ensures-seq, Ensures-value, ok-injective, arith,
}
use thunderden.Cbor
use thunderden.Cbor.Writer
use thunderden.Cbor.Writer.{CborLite}
use thunderden.Core.{Core}
use thunderden.Keys.{Keys, public_at, encode_public, registration_tag}
use thunderden.Policy.{Policy, Position}
use thunderden.Policy.Owner.{id, authorized, owned_keys}
use thunderden.Policy.Positions.{script}
use thunderden.QrCommands.{
  Lines, Signed, QrApproval, Signer, empty, signed_body, ask, ask_with, approve_wallet,
  wallet_details, ping, export_key, register, read_policy, read_path, read_authorized, show_address,
  sign_transaction, max_psbt_bytes,
}
use thunderden.QrCommands.Answers.{
  registration_lines, proved_policy, SaidYes, SaidYesTo, key_lines, address_lines,
  registration_body, IsAuthorized, IsExport, IsRegistration, IsAddressBody, IsSigningBody,
}

module _ (core : Core) (lib : CborLite) (signer : Signer core) where
  module _ (keys : Keys core) (approve : QrApproval signer.Review) where
    asked :
        (callback : Option (Lines → Bool)) (lines : Lines)
        → ask core lib signer callback lines ≡ ok true
        → SaidYes core lib signer callback lines
    unfolding ask
    asked none lines e = cc
    asked (some f) lines e = (f, refl, ok-injective _ _ e)

    asked_with :
        (callback : Option (Lines → Lines → Bool)) (lines details : Lines)
        → ask_with core lib signer callback lines details ≡ ok true
        → SaidYesTo core lib signer callback lines details
    unfolding ask_with
    asked_with none lines details e = cc
    asked_with (some f) lines details e = (f, refl, ok-injective _ _ e)

    chosen :
        {A : Type 0} (c : Bool) (a b : A)
        → (if c then some a else none) ≡ some b
        → (c ≡ true) × (b ≡ a)
    chosen true a b e = (refl, cc)
    chosen false a b e = cc

    -- What holds where a command has a body.
    abbrev pub OnBody : (Bytes → Type 0) → Option Bytes → Type 0
    OnBody P o = (b : Bytes) → o ≡ some b → P b

    pub pinged :
        (s : Bytes)
        → Ensures
            (OnBody (λ b. b ≡ (Writer.array lib (empty core lib signer) 0).written))
            (ping core lib signer s)
    unfolding ping
    pinged s =
        Ensures-bind (Cbor.tuple 0 s) λ (u, s1) _. Ensures-then (Cbor.end s1) (returns (λ b h. cc))

    pub exported :
        (s : Bytes)
        → Ensures
            (OnBody (IsExport core lib signer keys approve s))
            (export_key core lib signer keys approve s)
    unfolding export_key
    exported s = Ensures-bind (Cbor.tuple 2 s) λ (u, s1) e1.
        Ensures-bind (Cbor.array 32 s1) λ (count, s2) e2.
          Ensures-bind (read_path core lib signer count s2) λ (path, s3) e3.
            Ensures-bind (Cbor.u_int 1 s3) λ (display, s4) e4. Ensures-seq (Cbor.end s4) λ e5.
              Ensures-bind (public_at core keys path) λ key found.
                Ensures-bind (signer.public_key_review keys path) λ lines told.
                  let shown =
                    key_lines core lib signer lines (encode_public core key signer.mainnet) in
                  Ensures-bind (ask core lib signer approve.export_key shown) λ answer e.
                    returns (λ b h.
                      let (agreed, same) = chosen answer _ b h in
                      (
                        path,
                        key,
                        lines,
                        rw (e1, e2, e3, e4, e5) refl,
                        found,
                        told,
                        asked approve.export_key shown (e ∙ ap ok agreed),
                        same,
                      ))

    approved :
        (policy : Policy core) (callback : Option (Lines → Lines → Bool))
        → Ensures
            (OnBody (λ tag.
              (lines : Lines) × (is_empty policy.name ≡ false)
              × (signer.policy_review policy keys ≡ ok lines)
              × SaidYesTo core lib signer callback lines (registration_lines core lib signer policy)
              × (tag ≡ registration_tag core keys (id core policy))))
            (approve_wallet core lib signer policy keys callback)
    unfolding approve_wallet wallet_details
    approved policy callback = Ensures-require (not (is_empty policy.name)) _ λ named.
        Ensures-bind (owned_keys core policy keys) λ owned _.
          Ensures-require (not (is_empty owned)) _ λ _. Ensures-require (is_some callback) _ λ _.
            Ensures-bind (signer.policy_review policy keys) λ lines told.
              Ensures-bind
                (ask_with core lib signer callback lines (wallet_details core lib signer policy))
                λ answer e. returns (λ b h.
                  let is_named : is_empty policy.name ≡ false = ground arith in
                  let (agreed, same) = chosen answer _ b h in
                  (lines, is_named, told, asked_with callback lines _ (e ∙ ap ok agreed), same))

    some_proof :
        (proof : Option Bytes) (f : Bytes → Bytes) (b : Bytes)
        → elim proof [ none ↦ none | some tag ↦ some (f tag) ] ≡ some b
        → (tag : Bytes) × (proof ≡ some tag) × (b ≡ f tag)
    some_proof none f b h = cc
    some_proof (some tag) f b h = (tag, refl, cc)

    pub registered :
        (s : Bytes)
        → Ensures
            (OnBody (IsRegistration core lib signer keys approve s))
            (register core lib signer keys approve s)
    unfolding register
    registered s = Ensures-bind (Cbor.tuple 1 s) λ (u, s1) e1.
        Ensures-bind (read_policy core lib signer s1) λ (policy, s2) e2.
          Ensures-seq (Cbor.end s2) λ e3.
            Ensures-bind (approve_wallet core lib signer policy keys approve.register_wallet)
              λ proof e. returns (λ b h.
                let (tag, is_tag, same) = some_proof proof _ b h in
                let (lines, named, told, agreed, tagged) =
                  Ensures-value (approved policy approve.register_wallet) proof e tag is_tag in
                (
                  policy,
                  lines,
                  rw (e1, e2, e3) refl,
                  named,
                  told,
                  agreed,
                  same ∙ ap (registration_body core lib signer (id core policy)) tagged,
                ))

    proof_checked :
        (s : Bytes)
        → Ensures
            (λ (r : Policy core × Bytes × Bytes).
              (proved_policy core lib signer s ≡ ok r)
              × IsAuthorized core lib signer keys approve r.0 r.1)
            (read_authorized core lib signer keys s)
    unfolding read_authorized
    proof_checked s = Ensures-bind (read_policy core lib signer s) λ (policy, s1) e1.
        Ensures-bind (Cbor.bytes 32 s1) λ (proof, s2) e2.
          Ensures-bind (authorized core policy keys proof) λ valid e.
            Ensures-require valid _
              λ is_valid. returns {a = (policy, proof, s2)} (rw (e1, e2) refl, e ∙ ap ok is_valid)

    pub shown_address :
        (s : Bytes)
        → Ensures
            (OnBody (IsAddressBody core lib signer keys approve s))
            (show_address core lib signer keys approve s)
    unfolding show_address
    shown_address s = Ensures-bind (Cbor.tuple 4 s) λ (u, s0) e0.
        Ensures-bind (read_authorized core lib signer keys s0) λ (policy, proof, s1) valid.
          Ensures-bind (Cbor.u_int 1 s1) λ (branch, s2) e2.
            Ensures-bind (Cbor.u_int 0x7fff_ffff s2) λ (index, s3) e3.
              Ensures-seq (Cbor.end s3) λ e4.
                Ensures-bind (script core policy branch index) λ output has.
                  Ensures-bind (or_throw (signer.address_of output) "Invalid address") λ address of.
                    let position : Position = record { branch = branch; index = index } in
                    Ensures-bind (signer.address_review policy keys position address) λ lines told.
                      Ensures-bind (signer.policy_details policy keys) λ details more.
                        Ensures-bind
                          (ask_with core lib signer approve.address
                            (address_lines core lib signer lines) details)
                          λ answer e. returns (λ b h.
                            let (e1, proved) =
                              Ensures-value (proof_checked s0) (policy, proof, s1) valid in
                            let (agreed, same) = chosen answer _ b h in
                            (
                              policy,
                              proof,
                              position,
                              output,
                              address,
                              lines,
                              details,
                              rw (e0, e1, e2, e3, e4) refl,
                              proved,
                              has,
                              or_throw-eq-ok (signer.address_of output) _ address of,
                              told,
                              more,
                              asked_with approve.address (address_lines core lib signer lines)
                                  details (e ∙ ap ok agreed),
                              same,
                            ))

    some_result :
        (result : Option Signed) (f : Signed → Bytes) (b : Bytes)
        → elim result [ none ↦ none | some r ↦ some (f r) ] ≡ some b
        → (r : Signed) × (result ≡ some r) × (b ≡ f r)
    some_result none f b h = cc
    some_result (some r) f b h = (r, refl, cc)

    pub signed :
        (s : Bytes)
        → Ensures
            (OnBody (IsSigningBody core lib signer keys approve s))
            (sign_transaction core lib signer keys approve s)
    unfolding sign_transaction signed_body
    signed s = Ensures-bind (Cbor.tuple 3 s) λ (u, s0) e0.
        Ensures-bind (read_authorized core lib signer keys s0) λ (policy, proof, s1) valid.
          Ensures-bind (Cbor.bytes max_psbt_bytes s1) λ (psbt, s2) e2.
            Ensures-seq (Cbor.end s2) λ e3.
              Ensures-bind (signer.sign policy keys proof psbt approve.transaction) λ result e.
                returns (λ b h.
                  let (e1, proved) = Ensures-value (proof_checked s0) (policy, proof, s1) valid in
                  let (r, is_r, same) = some_result result _ b h in
                  (policy, proof, psbt, r, rw (e0, e1, e2, e3) refl, proved, e ∙ ap ok is_r, same))
