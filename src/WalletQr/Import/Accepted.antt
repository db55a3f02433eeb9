-- ===== src/WalletQr/Import/Accepted.antt =====
-- src/wallet_qr.cpp, ImportMultisig: the wallets that it returns.
use thunderden.Base.{
  ℕ, ◌≤◌, ◌≡◌, Bool, not, ◌&&◌, ◌||◌, List, [], ◌==◌, length, is_empty, leb, leb→le, and-true, all,
  contains, ok, codes, text_eq, Bytes, All, Ensures, Ensures-bind, Ensures-require, Ensures-then,
  Ensures-if, Ensures-value, Ensures-weaken, Ensures-self,
}
use thunderden.Cbor
use thunderden.Core.{Core}
use thunderden.Policy.{Policy}
use thunderden.Policy.Build.Accepted.{IsWellFormed}
use thunderden.Policy.Standard.{multisig_policy, multisig_text}
use thunderden.Policy.Standard.Multisig.{IsMultisigKey, multisig_accepted}
use thunderden.Transport.{QrMessage, max_wallet_setup}
use thunderden.WalletQr.{HdKeys}
use thunderden.WalletQr.Setup.{no_setup, setup_lines, lines, is_setup_char, read_multisig_text}
use thunderden.WalletQr.Import.{
  read_script_type, multisig_fields, read_crypto_output, import_multisig,
}

module _ (core : Core) (hd : HdKeys core) (mainnet : Bool) where
  -- A sorted multisig wallet of a known script type whose keys are standard accounts.
  abbrev pub Accepted : Policy core → Type 0
  Accepted p =
      (script_type : ℕ) × (threshold : ℕ) × (count : ℕ) × IsWellFormed core p
      × (script_type ≤ 2)
      × (1 ≤ threshold)
      × (threshold ≤ length p.keys)
      × (2 ≤ length p.keys)
      × (p.text ≡ multisig_text script_type threshold count)
      × All (IsMultisigKey core script_type mainnet) p.keys

  made_policy :
      (script_type threshold : ℕ) (keys : List Bytes) (p : Policy core)
      → multisig_policy core script_type threshold keys mainnet ≡ ok p
      → Accepted p
  made_policy script_type threshold keys p e =
      let (a, b, c, d, f, g, h) = multisig_accepted core script_type threshold keys mainnet p e in
      (script_type, threshold, length keys, a, b, c, d, f, g, h)

  from_text : (text : Bytes) → Ensures Accepted (read_multisig_text core hd mainnet text)
  unfolding read_multisig_text
  from_text text = Ensures-require (all is_setup_char text) _ λ _.
      Ensures-bind (setup_lines core hd mainnet (no_setup core hd mainnet) (lines text)) λ s _.
        Ensures-require
          (not (s.count == 0) && (s.format && (is_empty s.origin && length s.keys == s.count))) _
          λ _.
            Ensures-self (multisig_policy core 2 s.threshold s.keys mainnet)
              (λ p e. made_policy 2 s.threshold s.keys p e)

  from_output : (s : Bytes) → Ensures Accepted (read_crypto_output core hd mainnet s)
  unfolding read_crypto_output
  from_output s = Ensures-bind (read_script_type s) λ x _. Ensures-require (x.0.1 == 407) _ λ _.
      Ensures-bind (Cbor.map 2 x.1) λ y _.
        Ensures-bind
          (multisig_fields core hd mainnet y.0 x.0.0
            (record { seen = []; threshold = 0; keys = [] }) y.1)
          λ z _. Ensures-then (Cbor.end z.1) (
            Ensures-require (contains z.0.seen 1 && contains z.0.seen 2) _ λ _.
              Ensures-self (multisig_policy core x.0.0 z.0.threshold z.0.keys mainnet)
                (λ p e. made_policy x.0.0 z.0.threshold z.0.keys p e))

  -- A wallet that is imported from a QR message of at most 16384 bytes, as text or as a crypto-output, is a well-formed
  -- sorted multisig policy of a known script type, with a threshold of 1 to its number of keys, at least
  -- two keys, and a standard account for every key.
  pub imported_multisig :
      (message : QrMessage) (p : Policy core)
      → import_multisig core hd mainnet message ≡ ok p
      → Accepted p × (length message.cbor ≤ max_wallet_setup)
  unfolding import_multisig
  imported_multisig message =
      Ensures-value {P = λ p. Accepted p × (length message.cbor ≤ max_wallet_setup)} (
        Ensures-require
          ((text_eq message.type (codes "crypto-output") || text_eq message.type (codes "bytes"))
            && (not (is_empty message.cbor) && leb (length message.cbor) max_wallet_setup))
          _
          λ c.
            let (_, c1) =
              and-true
                (text_eq message.type (codes "crypto-output")
                  || text_eq message.type (codes "bytes"))
                _ c in
            let (_, c2) = and-true (not (is_empty message.cbor)) _ c1 in
            let small : length message.cbor ≤ max_wallet_setup =
              leb→le (length message.cbor) max_wallet_setup c2 in
            Ensures-if (text_eq message.type (codes "bytes"))
              (λ _. Ensures-bind (Cbor.bytes max_wallet_setup message.cbor) λ x _.
                Ensures-then (Cbor.end x.1) (Ensures-weaken (λ p a. (a, small)) (from_text x.0)))
              (λ _. Ensures-weaken (λ p a. (a, small)) (from_output message.cbor)))
