-- ===== src/WalletQr.antt =====
-- src/wallet_qr.cpp: wallet setups and public keys in QR messages.
pub mod Account
pub mod Setup
pub mod Import
pub mod Export
mod Tests
use thunderden.Base.{
  ℕ, Bool, true, false, not, ◌&&◌, List, ◌∷◌, Option, ◌==◌, Result, ok, ◌>>=◌, ◌>>◌, require, Bytes,
  contains,
}
use thunderden.Cbor
use thunderden.Core.{Core}

-- The members of Bitcoin Core's CExtPubKey that the program sets, ReadBE32 and WriteBE32, and ParseHDKeypath.
pub record HdKeys (core : Core) : Type 0 where
  pub chain_code : core.ExtPubKey → Bytes
  pub parent_fingerprint : core.ExtPubKey → Bytes
  pub ext_key : Bytes → Bytes → Bytes → ℕ → ℕ → core.ExtPubKey
  pub read_be32 : Bytes → ℕ
  pub write_be32 : ℕ → Bytes
  pub parse_hd_keypath : Bytes → Option (List ℕ)

-- Field: the number of a map's field that has not been seen yet, with the fields seen by then.
unfoldable pub field : ℕ → List ℕ → Bytes → Result ((ℕ × List ℕ) × Bytes)
field maximum seen s = do
  (n, rest) ← Cbor.u_int maximum s
  require (not (n == 0) && not (contains seen n)) "Unknown or repeated wallet field"
  ok ((n, n ∷ seen), rest)
