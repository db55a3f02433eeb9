-- ===== src/WalletQr/Account.antt =====
-- src/wallet_qr.cpp, ReadAccount: one account key of a crypto-output.
pub mod Checked
use thunderden.Base.{
  ℕ, zero, suc, ◌+◌, ◌*◌, ◌/◌, ◌%◌, Bool, true, false, not, ◌&&◌, ◌||◌, List, [], ◌∷◌, ◌++◌, leb,
  ltb, ◌==◌, if◌then◌else◌, length, drop, is_empty, Result, ok, err, ◌>>=◌, ◌>>◌, require, codes,
  text_eq, contains, Bytes,
}
use thunderden.Cbor
use thunderden.Core.{Core}
use thunderden.Keys.{hardened, path_text, encode_public}
use thunderden.Policy.Standard.{multisig_account_path, last_or_zero}
use thunderden.WalletQr.{HdKeys, field}

-- The loop over the network information: the last network that it names.
unfoldable pub network_fields : ℕ → List ℕ → ℕ → Bytes → Result (ℕ × Bytes)
network_fields zero seen network s = ok (network, s)
network_fields (suc n) seen network s = do
  ((f, seen'), s1) ← field 2 seen s
  (network', s2) ←
      if f == 1
      then (do
        (coin, rest) ← Cbor.u_int Cbor.uint32_max s1
        require (coin == 0) "Expected a Bitcoin key"
        ok (network, rest))
      else Cbor.u_int 1 s1
  network_fields n seen' network' s2

-- The steps of a path, an index and whether it is hardened each.
unfoldable pub read_steps : ℕ → List ℕ → Bytes → Result (List ℕ × Bytes)
read_steps zero path s = ok (path, s)
read_steps (suc n) path s = do
  (index, s1) ← Cbor.u_int 0x7fff_ffff s
  (is_hard, s2) ← Cbor.bool s1
  read_steps n (path ++ ((index + (if is_hard then hardened else 0)) ∷ [])) s2

-- The variables of the loop over a key's origin.
pub record Origin : Type 0 where
  pub fields : List ℕ
  pub path : List ℕ
  pub fingerprint : Bytes
  pub depth : ℕ

module _ (core : Core) (keys : HdKeys core) where
  unfoldable pub origin_field : ℕ → Origin → Bytes → Result (Origin × Bytes)
  origin_field f o s =
      if f == 1
      then (do
        (count, s1) ← Cbor.array 8 s
        require (not (count == 0) && count % 2 == 0) "Incomplete account path"
        (path, s2) ← read_steps (count / 2) o.path s1
        ok (record o { path = path }, s2))
      else if f == 2
      then (do
        (n, s1) ← Cbor.u_int Cbor.uint32_max s
        ok (record o { fingerprint = keys.write_be32 n }, s1))
      else (do (depth, s1) ← Cbor.u_int 255 s; ok (record o { depth = depth }, s1))

  unfoldable pub origin_fields : ℕ → Origin → Bytes → Result (Origin × Bytes)
  origin_fields zero o s = ok (o, s)
  origin_fields (suc n) o s = do
    ((f, fields), s1) ← field 3 o.fields s
    (o', s2) ← origin_field f (record o { fields = fields }) s1
    origin_fields n o' s2

  -- The variables of ReadAccount, with the members of its key.
  pub record AccountKey : Type 0 where
    pub seen : List ℕ
    pub pub_key : Bytes
    pub chain_code : Bytes
    pub network : ℕ
    pub fingerprint : Bytes
    pub path : List ℕ
    pub parent : Bytes

  -- The cases of the switch.
  unfoldable pub private_flag : AccountKey → Bytes → Result (AccountKey × Bytes)
  private_flag a s = do
    (flag, s1) ← Cbor.bool s
    require (not flag) "Wallet setup must contain public keys only"
    ok (a, s1)

  unfoldable pub key_field : AccountKey → Bytes → Result (AccountKey × Bytes)
  key_field a s = do
    (key, s1) ← Cbor.bytes 33 s
    require (length key == 33) "Expected a compressed public key"
    require (core.is_fully_valid key) "Invalid public key"
    ok (record a { pub_key = key }, s1)

  unfoldable pub chain_code_field : AccountKey → Bytes → Result (AccountKey × Bytes)
  chain_code_field a s = do
    (code, s1) ← Cbor.bytes 32 s
    require (length code == 32) "Missing account chain code"
    ok (record a { chain_code = code }, s1)

  unfoldable pub network_field : AccountKey → Bytes → Result (AccountKey × Bytes)
  network_field a s = do
    (t, s1) ← Cbor.tag s
    require (t == 305) "Invalid key network information"
    (count, s2) ← Cbor.map 2 s1
    (network, s3) ← network_fields count [] a.network s2
    ok (record a { network = network }, s3)

  unfoldable pub key_origin_field : AccountKey → Bytes → Result (AccountKey × Bytes)
  key_origin_field a s = do
    (t, s1) ← Cbor.tag s
    require (t == 304) "Invalid key origin"
    (count, s2) ← Cbor.map 3 s1
    (o, s3) ←
        origin_fields count
          (record { fields = []; path = a.path; fingerprint = a.fingerprint; depth = 0 }) s2
    require
        (contains o.fields 1
          && (contains o.fields 2 && (not (contains o.fields 3) || o.depth == length o.path)))
        "Incomplete or inconsistent key origin"
    ok (record a { path = o.path; fingerprint = o.fingerprint }, s3)

  unfoldable pub parent_field : AccountKey → Bytes → Result (AccountKey × Bytes)
  parent_field a s = do
    (n, s1) ← Cbor.u_int Cbor.uint32_max s
    ok (record a { parent = keys.write_be32 n }, s1)

  unfoldable pub label_field : AccountKey → Bytes → Result (AccountKey × Bytes)
  label_field a s = do (u, s1) ← Cbor.ignore_text 256 s; ok (a, s1)

  unfoldable pub account_field : ℕ → AccountKey → Bytes → Result (AccountKey × Bytes)
  account_field f a s =
      if leb f 2
      then private_flag a s
      else if f == 3
      then key_field a s
      else if f == 4
      then chain_code_field a s
      else if f == 5
      then network_field a s
      else if f == 6
      then key_origin_field a s
      else if f == 7
      then err "Explicit child paths are not supported by this wallet import"
      else if f == 8
      then parent_field a s
      else label_field a s

  unfoldable pub account_fields : ℕ → AccountKey → Bytes → Result (AccountKey × Bytes)
  account_fields zero a s = ok (a, s)
  account_fields (suc n) a s = do
    ((f, seen), s1) ← field 10 a.seen s
    (a', s2) ← account_field f (record a { seen = seen }) s1
    account_fields n a' s2

  abbrev pub no_key : AccountKey
  no_key = record {
    seen = [];
    pub_key = [];
    chain_code = [];
    network = 0;
    fingerprint = 0 ∷ (0 ∷ (0 ∷ (0 ∷ [])));
    path = [];
    parent = 0 ∷ (0 ∷ (0 ∷ (0 ∷ [])));
  }

  -- The text of a key with its origin.
  unfoldable pub origin_text : Bytes → List ℕ → core.ExtPubKey → Bool → Bytes
  origin_text fingerprint path key mainnet =
      codes "["
      ++ (core.hex_str fingerprint
          ++ (drop 1 (path_text path) ++ (codes "]" ++ encode_public core key mainnet)))

  -- What follows the loop.
  unfoldable pub finish_account : AccountKey → ℕ → Bool → Result Bytes
  finish_account a script_type mainnet = do
    require
        (contains a.seen 3
          && (contains a.seen 4 && (contains a.seen 6 && a.network == (if mainnet then 0 else 1))))
        "Incomplete public key or wrong network"
    require (multisig_account_path a.path script_type mainnet)
        "Expected the standard account path for this multisig type"
    require (contains a.seen 8 || length a.path == 1) "Missing parent fingerprint"
    let parent = if contains a.seen 8 then a.parent else a.fingerprint
    require (not (length a.path == 1) || keys.read_be32 parent == keys.read_be32 a.fingerprint)
        "Conflicting parent fingerprint"
    ok (
        origin_text a.fingerprint a.path
          (keys.ext_key a.pub_key a.chain_code parent (length a.path) (last_or_zero core a.path))
          mainnet)

  unfoldable pub read_account : ℕ → Bool → Bytes → Result (Bytes × Bytes)
  read_account script_type mainnet s = do
    (t, s1) ← Cbor.tag s
    require (t == 303) "Expected a public account key"
    (count, s2) ← Cbor.map 10 s1
    (a, s3) ← account_fields count no_key s2
    text ← finish_account a script_type mainnet
    ok (text, s3)
