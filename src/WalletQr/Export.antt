-- ===== src/WalletQr/Export.antt =====
-- src/wallet_qr.cpp, HDKeyCBOR, PublicKeyText, PublicHDKey and PublicAccount: public keys of a session.
pub mod Written
pub mod Fields
pub mod RoundTrip
use thunderden.Base.{
  ℕ, zero, suc, ◌+◌, ◌*◌, ◌%◌, Bool, true, false, not, ◌&&◌, List, [], ◌∷◌, ◌++◌, leb, ◌==◌,
  if◌then◌else◌, length, Result, ok, err, ◌>>=◌, ◌>>◌, require, codes, Bytes,
}
use thunderden.Cbor.Writer
use thunderden.Cbor.Writer.{CborLite, CborWriter}
use thunderden.Core.{Core}
use thunderden.Keys.{Keys, hardened, is_hardened, public_at, root_fingerprint}
use thunderden.Policy.Owner.{coin}
use thunderden.Policy.Standard.{account_text, multisig_account_path, last_or_zero}
use thunderden.Transport.{QrMessage}
use thunderden.WalletQr.{HdKeys}

abbrev pub empty : CborWriter
empty = record { written = [] }

module _ (core : Core) (hd : HdKeys core) (lib : CborLite) (mainnet : Bool) where
  unfoldable pub write_steps : CborWriter → List ℕ → CborWriter
  write_steps w [] = w
  write_steps w (index ∷ path) =
      write_steps (Writer.bool lib (Writer.u_int lib w (index % hardened)) (is_hardened index)) path

  unfoldable pub write_network : CborWriter → Bool → CborWriter
  write_network w legacy_tags =
      if mainnet
      then w
      else Writer.u_int lib
          (Writer.u_int lib
            (Writer.u_int lib
              (Writer.u_int lib
                (Writer.map lib
                  (Writer.tag lib (Writer.u_int lib w 5) (if legacy_tags then 305 else 40305)) 2)
                1)
              0)
            2)
          1

  unfoldable pub write_key_origin : CborWriter → Keys core → List ℕ → Bool → CborWriter
  write_key_origin w keys path legacy_tags =
      let w1 = Writer.tag lib (Writer.u_int lib w 6) (if legacy_tags then 304 else 40304) in
      let w2 =
        write_steps (Writer.array lib (Writer.u_int lib (Writer.map lib w1 3) 1) (length path * 2))
          path in
      let w3 =
        Writer.u_int lib (Writer.u_int lib w2 2) (hd.read_be32 (root_fingerprint core keys)) in
      Writer.u_int lib (Writer.u_int lib w3 3) (length path)

  unfoldable pub write_parent : CborWriter → ℕ → CborWriter
  write_parent w parent = if parent == 0 then w else Writer.u_int lib (Writer.u_int lib w 8) parent

  -- The key's fields in a map, behind what was written before.
  unfoldable pub write_key : CborWriter → Keys core → List ℕ → core.ExtPubKey → Bool → CborWriter
  write_key w keys path key legacy_tags =
      let parent = hd.read_be32 (hd.parent_fingerprint key) in
      let w1 =
        Writer.map lib w (3 + ((if mainnet then 0 else 1) + (if parent == 0 then 0 else 1))) in
      let w2 = Writer.bytes lib (Writer.u_int lib w1 3) (core.pubkey key) in
      let w3 = Writer.bytes lib (Writer.u_int lib w2 4) (hd.chain_code key) in
      write_parent (write_key_origin (write_network w3 legacy_tags) keys path legacy_tags) parent

  unfoldable pub hd_key_cbor : Keys core → List ℕ → Bool → Result Bytes
  hd_key_cbor keys path legacy_tags = do
    require (leb (length path) 32) "Export path is too deep"
    key ← public_at core keys path
    ok (write_key empty keys path key legacy_tags).written

  pub public_key_text : Keys core → List ℕ → Result Bytes
  public_key_text keys path = do
    require (leb (length path) 32) "Export path is too deep"
    key ← public_at core keys path
    ok (account_text core keys path key mainnet)

  pub public_hd_key : Keys core → List ℕ → Result QrMessage
  public_hd_key keys path = do
    key ← hd_key_cbor keys path false
    ok (record { type = codes "hdkey"; cbor = key; secret = [] })

  -- The tags of a standard account's script type, in the order that they are written.
  unfoldable pub default_tags : List ℕ → Result (List ℕ)
  default_tags (a ∷ (b ∷ (c ∷ []))) = do
    require (b == coin mainnet && (leb hardened c && leb c (hardened + 100)))
        "Account export requires a standard account path"
    if a == hardened + 44
        then ok (403 ∷ [])
        else if a == hardened + 49
        then ok (400 ∷ (404 ∷ []))
        else if a == hardened + 84
        then ok (404 ∷ [])
        else if a == hardened + 86
        then ok (409 ∷ [])
        else err "Unsupported account export path"
  default_tags path = err "Account export requires a standard account path"

  unfoldable pub multisig_tags : List ℕ → Result (List ℕ)
  multisig_tags path = do
    let script_type : ℕ = if length path == 4 then last_or_zero core path % hardened else 0
    require (multisig_account_path path script_type mainnet)
        "Account export requires a standard multisig path"
    ok ((if script_type == 2 then [] else 400 ∷ []) ++ (if script_type == 0 then [] else 401 ∷ []))

  unfoldable pub script_tags : List ℕ → Result (List ℕ)
  script_tags path = if length path == 3 then default_tags path else multisig_tags path

  unfoldable pub write_tags : CborWriter → List ℕ → CborWriter
  write_tags w [] = w
  write_tags w (t ∷ tags) = write_tags (Writer.tag lib w t) tags

  pub public_account : Keys core → List ℕ → Result QrMessage
  public_account keys path = do
    tags ← script_tags path
    let head =
        Writer.array lib
          (Writer.u_int lib
            (Writer.u_int lib (Writer.u_int lib (Writer.map lib empty 2) 1)
              (hd.read_be32 (root_fingerprint core keys)))
            2)
          1
    let out = Writer.tag lib (write_tags head tags) 303
    key ← hd_key_cbor keys path true
    ok (record { type = codes "crypto-account"; cbor = out.written ++ key; secret = [] })
