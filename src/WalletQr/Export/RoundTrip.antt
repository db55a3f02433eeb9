-- ===== src/WalletQr/Export/RoundTrip.antt =====
-- src/wallet_qr.cpp, ReadAccount on what HDKeyCBOR writes.
use thunderden.Base.{
  ℕ, zero, suc, ◌+◌, ◌^◌, ◌<◌, ◌≤◌, ◌≡◌, refl, sym, ap, ◌∙◌, inl, inr, Bool, true, false, not, ◌&&◌,
  ◌||◌, List, [], ◌∷◌, ◌++◌, ◌==◌, leb, if◌then◌else◌, length, All, contains, Bytes, arith,
  Bool-cases, Result, ok, bind-ok, require-ok, ==_iff, ==_refl, and-true, le→leb,
}
use thunderden.Cbor
use thunderden.Cbor.Encoding.{encode_head, encode_string}
use thunderden.Cbor.RoundTrip.{map-encode, tag-encode}
use thunderden.Cbor.Writer.{CborLite, IsCanonical}
use thunderden.Core.{Core}
use thunderden.Keys.{Keys, root_fingerprint, public_at}
use thunderden.Policy.Standard.{multisig_account_path, last_or_zero, account_text}
use thunderden.WalletQr.{HdKeys}
use thunderden.WalletQr.Account.{
  AccountKey, account_fields, no_key, origin_text, finish_account, read_account,
}
use thunderden.WalletQr.Export.{empty, write_key, hd_key_cbor, public_key_text}
use thunderden.WalletQr.Export.Written.{network_bytes, origin_bytes, write_key_bytes}
use thunderden.WalletQr.Export.Fields.{
  key_state, next_field, key-back, chain_code-back, network-back, key_origin-back, parent-back,
}

-- The standard paths have one or four steps.
standard_length :
    (path : List ℕ) (t : ℕ) (mainnet : Bool)
    → multisig_account_path path t mainnet ≡ true
    → (1 ≤ length path) × (length path ≤ 4)
unfolding multisig_account_path
standard_length [] zero mainnet h = cc
standard_length (a ∷ []) zero mainnet h = (omega arith, omega arith)
standard_length (a ∷ (b ∷ p)) zero mainnet h =
    (let (_, bad) = and-true (a == 0x8000_002d) _ h in cc)
standard_length [] (suc t) mainnet h = cc
standard_length (a ∷ []) (suc t) mainnet h = cc
standard_length (a ∷ (b ∷ [])) (suc t) mainnet h = cc
standard_length (a ∷ (b ∷ (c ∷ []))) (suc t) mainnet h = cc
standard_length (a ∷ (b ∷ (c ∷ (d ∷ [])))) (suc t) mainnet h = (omega arith, omega arith)
standard_length (a ∷ (b ∷ (c ∷ (d ∷ (e ∷ p))))) (suc t) mainnet h = cc

module _ (core : Core) (hd : HdKeys core) where
  -- ReadBE32 and WriteBE32 keep these four bytes.
  pub record IsKept (b : Bytes) : Type 0 where
    pub back : hd.write_be32 (hd.read_be32 b) ≡ b
    pub small : hd.read_be32 b < 2 ^ 32

  -- The key of an account: a valid compressed key with a chain code, at the depth and child number of the path, and the
  -- key that its members make up.
  pub record IsAccountKey (path : List ℕ) (key : core.ExtPubKey) : Type 0 where
    pub compressed : length (core.pubkey key) ≡ 33
    pub valid : core.is_fully_valid (core.pubkey key) ≡ true
    pub chained : length (hd.chain_code key) ≡ 32
    pub deep : core.depth key ≡ length path
    pub numbered : core.child key ≡ last_or_zero core path
    pub rebuilt :
        hd.ext_key
          (core.pubkey key)
          (hd.chain_code key)
          (hd.parent_fingerprint key)
          (core.depth key)
          (core.child key)
        ≡ key

  abbrev fields_of : Bool → List ℕ
  fields_of mainnet = 8 ∷ (6 ∷ (if mainnet then 4 ∷ (3 ∷ []) else 5 ∷ (4 ∷ (3 ∷ []))))

  abbrev read_state : Bool → Keys core → List ℕ → core.ExtPubKey → AccountKey core hd
  read_state mainnet keys path key =
      key_state core hd (fields_of mainnet) (core.pubkey key) (hd.chain_code key)
        (if mainnet then 0 else 1) (hd.write_be32 (hd.read_be32 (root_fingerprint core keys))) path
        (hd.write_be32 (hd.read_be32 (hd.parent_fingerprint key)))

  -- The last two fields, from whatever the fields before them left.
  last_fields :
      (keys : Keys core) (path : List ℕ) (key : core.ExtPubKey) (rest : Bytes)
      (a : AccountKey core hd)
      → a.path ≡ []
      → contains a.seen 6 ≡ false
      → contains a.seen 8 ≡ false
      → 1 ≤ length path
      → length path ≤ 4
      → All (λ i. i < 2 ^ 32) path
      → IsKept (root_fingerprint core keys)
      → IsKept (hd.parent_fingerprint key)
      → account_fields core hd 2 a (
          origin_bytes
            (hd.read_be32 (root_fingerprint core keys))
            path
            (encode_head 0 8 ++ (encode_head 0 (hd.read_be32 (hd.parent_fingerprint key)) ++ rest)))
        ≡ account_fields core hd 0
            (record a {
              seen = 8 ∷ (6 ∷ a.seen);
              path = path;
              fingerprint = hd.write_be32 (hd.read_be32 (root_fingerprint core keys));
              parent = hd.write_be32 (hd.read_be32 (hd.parent_fingerprint key));
            })
            rest
  last_fields keys path key rest a fresh new6 new8 some_step short steps root parent =
      next_field core hd 1 6 a _ _ _ (omega arith) (rw (new6) refl) (
        key_origin-back core hd (record a { seen = 6 ∷ a.seen })
          (hd.read_be32 (root_fingerprint core keys)) path _ fresh some_step short steps root.small)
      ∙ next_field core hd 0 8 _ _ _ rest (omega arith) (rw (new8) refl)
          (parent-back core hd _ (hd.read_be32 (hd.parent_fingerprint key)) rest parent.small)

  fields-back :
      (mainnet : Bool) (keys : Keys core) (path : List ℕ) (key : core.ExtPubKey) (rest : Bytes)
      → 1 ≤ length path
      → length path ≤ 4
      → All (λ i. i < 2 ^ 32) path
      → IsAccountKey path key
      → IsKept (root_fingerprint core keys)
      → IsKept (hd.parent_fingerprint key)
      → account_fields core hd (3 + ((if mainnet then 0 else 1) + 1)) (no_key core hd) (
          encode_head 0 3
          ++ (encode_string 2 (core.pubkey key)
              ++ (encode_head 0 4
                  ++ (encode_string 2 (hd.chain_code key)
                      ++ network_bytes mainnet (
                          origin_bytes (hd.read_be32 (root_fingerprint core keys)) path (
                            encode_head 0 8
                            ++ (encode_head 0 (hd.read_be32 (hd.parent_fingerprint key))
                                ++ rest)))))))
        ≡ account_fields core hd 0 (read_state mainnet keys path key) rest
  fields-back true keys path key rest some_step short steps good root parent =
      next_field core hd 3 3 (no_key core hd) _ _ _ (omega arith) refl
        (key-back core hd _ (core.pubkey key) _ good.compressed good.valid)
      ∙ (next_field core hd 2 4 _ _ _ _ (omega arith) refl
            (chain_code-back core hd _ (hd.chain_code key) _ good.chained)
          ∙ last_fields keys path key rest _ refl refl refl some_step short steps root parent)
  fields-back false keys path key rest some_step short steps good root parent =
      next_field core hd 4 3 (no_key core hd) _ _ _ (omega arith) refl
        (key-back core hd _ (core.pubkey key) _ good.compressed good.valid)
      ∙ (next_field core hd 3 4 _ _ _ _ (omega arith) refl
            (chain_code-back core hd _ (hd.chain_code key) _ good.chained)
          ∙ (next_field core hd 2 5 _ _ _ _ (omega arith) refl (network-back core hd _ _)
              ∙ last_fields keys path key rest _ refl refl refl some_step short steps root parent))

  -- What the reader makes of the fields is the text of the key.
  finish-back :
      (mainnet : Bool) (script_type : ℕ) (keys : Keys core) (path : List ℕ) (key : core.ExtPubKey)
      → multisig_account_path path script_type mainnet ≡ true
      → IsAccountKey path key
      → IsKept (root_fingerprint core keys)
      → IsKept (hd.parent_fingerprint key)
      → (length path ≡ 1 → hd.parent_fingerprint key ≡ root_fingerprint core keys)
      → finish_account core hd (read_state mainnet keys path key) script_type mainnet
        ≡ ok (account_text core keys path key mainnet)
  unfolding finish_account origin_text account_text
  finish-back mainnet script_type keys path key standard good root parent top =
      let a = read_state mainnet keys path key in
      let made =
        hd.ext_key (core.pubkey key) (hd.chain_code key) a.parent (length path)
          (last_or_zero core path) in
      let same_key : made ≡ key = rw (parent.back, sym good.deep, sym good.numbered) good.rebuilt in
      require-ok
        (contains a.seen 3
          && (contains a.seen 4 && (contains a.seen 6 && a.network == (if mainnet then 0 else 1))))
        _ (seen_fields mainnet)
        (require-ok (multisig_account_path path script_type mainnet) _ standard (
          require-ok (not (length path == 1) || hd.read_be32 a.parent == hd.read_be32 a.fingerprint)
            _
            (elim (Bool-cases (length path == 1)) [
              | inl one ↦
                  rw (one, top ((==_iff (length path) 1).0 one))
                    (==_refl (hd.read_be32 a.fingerprint))
              | inr more ↦ rw (more) refl
            ])
            (ap (λ f. ok (origin_text core hd f path made mainnet)) root.back
              ∙ ap (λ k. ok (origin_text core hd (root_fingerprint core keys) path k mainnet))
                  same_key)))
    where
      seen_fields :
          (m : Bool)
          → contains (fields_of m) 3
              && (contains (fields_of m) 4
                  && (contains (fields_of m) 6 && (if m then 0 else 1) == (if m then 0 else 1)))
            ≡ true
      seen_fields true = refl
      seen_fields false = refl

  -- A standard multisig account that is exported as a legacy account key, by a canonical CBOR writer,
  -- is read back: the import of such a key from a setup returns the key's text as it is exported in
  -- text form, whatever bytes follow. The path has steps of 32 bits; the key is valid, at that depth
  -- and child number; WriteBE32 gives back the fingerprints that ReadBE32 read; and the parent's
  -- fingerprint is not zero, and is the seed's for a path of one step.
  pub account_read_back :
      (lib : CborLite) (c : IsCanonical lib) (mainnet : Bool) (script_type : ℕ) (keys : Keys core)
      (path : List ℕ) (key : core.ExtPubKey) (rest : Bytes)
      → public_at core keys path ≡ ok key
      → multisig_account_path path script_type mainnet ≡ true
      → All (λ i. i < 2 ^ 32) path
      → IsAccountKey path key
      → IsKept (root_fingerprint core keys)
      → IsKept (hd.parent_fingerprint key)
      → (hd.read_be32 (hd.parent_fingerprint key) == 0) ≡ false
      → (length path ≡ 1 → hd.parent_fingerprint key ≡ root_fingerprint core keys)
      → (written : Bytes) × (text : Bytes) × (hd_key_cbor core hd lib mainnet keys path true
          ≡ ok written)
        × (public_key_text core hd lib mainnet keys path ≡ ok text)
        × (◌≡◌ {A = Result (Bytes × Bytes)}
            (read_account core hd script_type mainnet (encode_head 6 303 ++ (written ++ rest)))
            (ok (text, rest)))
  unfolding hd_key_cbor public_key_text read_account account_fields
  account_read_back lib c mainnet script_type keys path key rest at standard steps good root parent
        known top =
      let (some_step, short) = standard_length path script_type mainnet standard in
      let fits : leb (length path) 32 ≡ true = le→leb (length path) 32 (omega (arith, short)) in
      let bytes_of =
        write_key_bytes lib c core hd mainnet keys path key rest (omega (arith, short)) root.small
          parent.small known good.compressed good.chained in
      (
        (write_key core hd lib mainnet empty keys path key true).written,
        account_text core keys path key mainnet,
        require-ok (leb (length path) 32) _ fits (bind-ok (public_at core keys path) _ at refl),
        require-ok (leb (length path) 32) _ fits (bind-ok (public_at core keys path) _ at refl),
        bind-ok (Cbor.tag _) _ (tag-encode 303 _ (omega arith)) (
            bind-ok (Cbor.map 10 _) _
              (ap (Cbor.map 10) bytes_of
                ∙ map-encode 10 (3 + ((if mainnet then 0 else 1) + 1)) _ (ground arith)
                    (ground arith))
              (bind-ok (account_fields core hd _ _ _) _
                (fields-back mainnet keys path key rest some_step short steps good root parent)
                (bind-ok
                  (finish_account core hd (read_state mainnet keys path key) script_type mainnet) _
                  (finish-back mainnet script_type keys path key standard good root parent top)
                  refl))),
      )
