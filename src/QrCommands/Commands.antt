-- ===== src/QrCommands/Commands.antt =====
-- src/qr_commands.cpp, the choice of the command by its number.
use thunderden.Base.{
  ℕ, ◌<◌, ◌≡◌, inl, inr, refl, false, some, ◌==◌, ==_iff, ok, Bytes, Ensures-value, Bool-cases,
  arith,
}
use thunderden.Cbor.Writer.{CborLite}
use thunderden.Core.{Core}
use thunderden.Keys.{Keys}
use thunderden.QrCommands.{QrApproval, Signer, command}
use thunderden.QrCommands.Answers.{IsGranted}
use thunderden.QrCommands.Grants.{pinged, exported, registered, shown_address, signed}

module _ (core : Core) (lib : CborLite) (signer : Signer core) where
  module _ (keys : Keys core) (approve : QrApproval signer.Review) where
    pub granted :
        (operation : ℕ) (s body : Bytes)
        → command core lib signer keys approve operation s ≡ ok (some body)
        → IsGranted core lib signer keys approve operation s body
    unfolding command
    granted operation s body e = elim (Bool-cases (operation == 0)) [
      | inl z ↦ inl (
        (==_iff operation 0).0 z,
        Ensures-value (pinged core lib signer keys approve s) (some body) (rw z at e) body refl,
      )
      | inr z ↦ elim (Bool-cases (operation == 1)) [
        | inl a ↦ inr (
            inl (
              (==_iff operation 1).0 a,
              Ensures-value (exported core lib signer keys approve s) (some body) (rw (z, a) at e)
                  body refl,
            ))
        | inr a ↦ elim (Bool-cases (operation == 2)) [
          | inl b ↦ inr (
              inr (
                inl (
                  (==_iff operation 2).0 b,
                  Ensures-value (registered core lib signer keys approve s) (some body)
                      (rw (z, a, b) at e) body refl,
                )))
          | inr b ↦ elim (Bool-cases (operation == 3)) [
            | inl c ↦ inr (
                inr (
                  inr (
                    inl (
                      (==_iff operation 3).0 c,
                      Ensures-value (shown_address core lib signer keys approve s) (some body)
                          (rw (z, a, b, c) at e) body refl,
                    ))))
            | inr c ↦ inr (
                inr (
                  inr (
                    inr (
                      above operation z a b c,
                      Ensures-value (signed core lib signer keys approve s) (some body)
                          (rw (z, a, b, c) at e) body refl,
                    ))))
          ]
        ]
      ]
    ]
      where
        above :
            (n : ℕ)
            → (n == 0) ≡ false
            → (n == 1) ≡ false
            → (n == 2) ≡ false
            → (n == 3) ≡ false
            → 3 < n
        above n z a b c = ground arith
