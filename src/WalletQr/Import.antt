-- ===== src/WalletQr/Import.antt =====
-- src/wallet_qr.cpp, IsMultisigSetup and ImportMultisig: a wallet setup as a QR message.
pub mod Accepted
use thunderden.Base.{
  ℕ, zero, suc, Bool, true, false, not, ◌&&◌, ◌||◌, List, [], ◌∷◌, ◌++◌, Option, none, some, leb,
  ◌==◌, if◌then◌else◌, length, is_empty, Result, ok, err, ◌>>=◌, ◌>>◌, require, codes, text_eq,
  starts_with, split_at, contains, Bytes,
}
use thunderden.Cbor
use thunderden.Core.{Core}
use thunderden.Policy.{Policy}
use thunderden.Policy.Standard.{multisig_policy}
use thunderden.Transport.{QrMessage, max_wallet_setup}
use thunderden.WalletQr.{HdKeys, field}
use thunderden.WalletQr.Account.{read_account}
use thunderden.WalletQr.Setup.{trim, lines, read_multisig_text}

-- The text behind its leading blanks and newlines.
abbrev skip_blanks : Bytes → Bytes
skip_blanks [] = []
skip_blanks (c ∷ s) = if c == b' ' || (c == 9 || (c == 13 || c == 10)) then skip_blanks s else c ∷ s

-- The text before the first newline.
abbrev first_line : Bytes → Bytes
first_line [] = []
first_line (c ∷ s) = if c == 10 then [] else c ∷ first_line s

unfoldable pub is_setup_text : Bytes → Bool
is_setup_text [] = false
is_setup_text (c ∷ s) = c == b'#' || elim (split_at b':' (first_line (c ∷ s))) [
  | none ↦ false
  | some (name, value) ↦
      text_eq (trim name) (codes "Name")
      || (text_eq (trim name) (codes "Policy")
          || (text_eq (trim name) (codes "Format") || text_eq (trim name) (codes "Derivation")))
]

unfoldable pub is_multisig_setup : QrMessage → Result Bool
is_multisig_setup message =
    if text_eq message.type (codes "crypto-output")
    then ok true
    else if not (text_eq message.type (codes "bytes"))
        || (is_empty message.cbor || not (leb (length message.cbor) max_wallet_setup))
    then ok false
    else (do
      (text, rest) ← Cbor.bytes max_wallet_setup message.cbor
      Cbor.end rest
      ok (is_setup_text (skip_blanks text)))

-- The script type by the tags, with the tag inside them.
unfoldable pub read_script_type : Bytes → Result ((ℕ × ℕ) × Bytes)
read_script_type s = do
  (wrapper, s1) ← Cbor.tag s
  require (wrapper == 400 || wrapper == 401) "Expected legacy, nested or native SegWit multisig"
  (inner, s2) ← Cbor.tag s1
  if wrapper == 400 && inner == 401
      then (do (innermost, s3) ← Cbor.tag s2; ok ((1, innermost), s3))
      else ok ((if wrapper == 401 then 2 else 0, inner), s2)

-- The variables of the loop over the fields of a multisig.
pub record Multisig : Type 0 where
  pub seen : List ℕ
  pub threshold : ℕ
  pub keys : List Bytes

module _ (core : Core) (hd : HdKeys core) (mainnet : Bool) where
  unfoldable pub read_accounts : ℕ → ℕ → List Bytes → Bytes → Result (List Bytes × Bytes)
  read_accounts zero script_type keys s = ok (keys, s)
  read_accounts (suc n) script_type keys s = do
    (key, s1) ← read_account core hd script_type mainnet s
    read_accounts n script_type (keys ++ (key ∷ [])) s1

  unfoldable pub multisig_field : ℕ → ℕ → Multisig → Bytes → Result (Multisig × Bytes)
  multisig_field f script_type m s =
      if f == 1
      then (do (threshold, s1) ← Cbor.u_int 20 s; ok (record m { threshold = threshold }, s1))
      else (do
        (count, s1) ← Cbor.array (if script_type == 0 then 15 else 20) s
        (keys, s2) ← read_accounts count script_type m.keys s1
        ok (record m { keys = keys }, s2))

  unfoldable pub multisig_fields : ℕ → ℕ → Multisig → Bytes → Result (Multisig × Bytes)
  multisig_fields zero script_type m s = ok (m, s)
  multisig_fields (suc n) script_type m s = do
    ((f, seen), s1) ← field 2 m.seen s
    (m', s2) ← multisig_field f script_type (record m { seen = seen }) s1
    multisig_fields n script_type m' s2

  unfoldable pub read_crypto_output : Bytes → Result (Policy core)
  read_crypto_output s = do
    ((script_type, inner), s1) ← read_script_type s
    require (inner == 407) "Only sorted multisig wallet setups are supported"
    (count, s2) ← Cbor.map 2 s1
    (m, s3) ← multisig_fields count script_type (record { seen = []; threshold = 0; keys = [] }) s2
    Cbor.end s3
    require (contains m.seen 1 && contains m.seen 2) "Incomplete multisig setup"
    multisig_policy core script_type m.threshold m.keys mainnet

  unfoldable pub import_multisig : QrMessage → Result (Policy core)
  import_multisig message = do
    require
        ((text_eq message.type (codes "crypto-output") || text_eq message.type (codes "bytes"))
          && (not (is_empty message.cbor) && leb (length message.cbor) max_wallet_setup))
        "Scan a multisig wallet setup or signer-registration QR"
    if text_eq message.type (codes "bytes")
        then (do
          (text, rest) ← Cbor.bytes max_wallet_setup message.cbor
          Cbor.end rest
          read_multisig_text core hd mainnet text)
        else read_crypto_output message.cbor
