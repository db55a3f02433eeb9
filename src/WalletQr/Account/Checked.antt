-- ===== src/WalletQr/Account/Checked.antt =====
-- src/wallet_qr.cpp, ReadAccount: what is checked of an account key.
use thunderden.Base.{
  ℕ, zero, suc, ◌≡◌, refl, ◌⊎◌, inl, inr, Bool, true, false, not, ◌&&◌, ◌||◌, List, [], ◌∷◌, ◌==◌,
  if◌then◌else◌, length, leb, and-true, ==_iff, contains, Result, ok, Bytes, arith, Ensures,
  returns, throws, Ensures-bind, Ensures-require, Ensures-if, Ensures-value,
}
use thunderden.Cbor
use thunderden.Core.{Core}
use thunderden.Policy.Standard.{multisig_account_path, last_or_zero}
use thunderden.WalletQr.{HdKeys, field}
use thunderden.WalletQr.Account.{
  AccountKey, origin_fields, network_fields, private_flag, key_field, chain_code_field,
  network_field, key_origin_field, parent_field, label_field, account_field, account_fields, no_key,
  origin_text, finish_account, read_account,
}

module _ (core : Core) (hd : HdKeys core) where
  -- A public key that was read is a valid compressed key, and a chain code has 32 bytes.
  abbrev pub FieldsChecked : AccountKey core hd → Type 0
  FieldsChecked a =
      ((contains a.seen 3 ≡ false)
        ⊎ ((length a.pub_key ≡ 33) × (core.is_fully_valid a.pub_key ≡ true)))
      × ((contains a.seen 4 ≡ false) ⊎ (length a.chain_code ≡ 32))

  another_field :
      (f : ℕ) (a : AccountKey core hd)
      → (f == 3) ≡ false
      → (f == 4) ≡ false
      → FieldsChecked a
      → FieldsChecked (record a { seen = f ∷ a.seen })
  another_field f a not_key not_code (h3, h4) = rw (not_key, not_code) (h3, h4)

  -- A case of the switch keeps what was checked, once its own field has been seen.
  checked_field :
      (f : ℕ) (a : AccountKey core hd) (s : Bytes)
      → FieldsChecked a
      → Ensures
          (λ (x : AccountKey core hd × Bytes). FieldsChecked x.0)
          (account_field core hd f (record a { seen = f ∷ a.seen }) s)
  unfolding account_field private_flag key_field chain_code_field network_field key_origin_field
      parent_field label_field
  checked_field f a s h =
      Ensures-if (leb f 2)
        (λ low.
          let kept = another_field f a (ground (arith, low)) (ground (arith, low)) h in
          Ensures-bind (Cbor.bool s) λ x _. Ensures-require (not x.0) _ λ _. returns kept)
        (λ _.
          Ensures-if (f == 3)
            (λ is_key.
              let not_code : (f == 4) ≡ false = ground (arith, is_key) in
              Ensures-bind (Cbor.bytes 33 s) λ x _. Ensures-require (length x.0 == 33) _ λ long.
                Ensures-require (core.is_fully_valid x.0) _ λ valid.
                  returns (inr ((==_iff (length x.0) 33).0 long, valid), rw (not_code) h.1))
            (λ not_key.
              Ensures-if (f == 4)
                (λ is_code. Ensures-bind (Cbor.bytes 32 s) λ x _.
                  Ensures-require (length x.0 == 32) _
                    λ long. returns (rw (not_key) h.0, inr ((==_iff (length x.0) 32).0 long)))
                (λ not_code.
                  let kept = another_field f a not_key not_code h in
                  Ensures-if (f == 5)
                    (λ _. Ensures-bind (Cbor.tag s) λ x _. Ensures-require (x.0 == 305) _ λ _.
                      Ensures-bind (Cbor.map 2 x.1) λ y _.
                        Ensures-bind (network_fields y.0 [] a.network y.1) λ z _. returns kept)
                    (λ _.
                      Ensures-if (f == 6)
                        (λ _. Ensures-bind (Cbor.tag s) λ x _. Ensures-require (x.0 == 304) _ λ _.
                          Ensures-bind (Cbor.map 3 x.1) λ y _.
                            Ensures-bind
                              (origin_fields core hd y.0
                                (record {
                                  fields = [];
                                  path = a.path;
                                  fingerprint = a.fingerprint;
                                  depth = 0;
                                })
                                y.1)
                              λ z _.
                                Ensures-require
                                  (contains z.0.fields 1
                                    && (contains z.0.fields 2
                                        && (not (contains z.0.fields 3)
                                            || z.0.depth == length z.0.path)))
                                  _ λ _. returns kept)
                        (λ _.
                          Ensures-if (f == 7) (λ _. throws)
                            (λ _.
                              Ensures-if (f == 8)
                                (λ _.
                                  Ensures-bind (Cbor.u_int Cbor.uint32_max s) λ x _. returns kept)
                                (λ _.
                                  Ensures-bind (Cbor.ignore_text 256 s) λ x _. returns kept)))))))

  field_lem :
      (maximum : ℕ) (seen : List ℕ) (s : Bytes)
      → Ensures (λ (x : (ℕ × List ℕ) × Bytes). x.0.1 ≡ x.0.0 ∷ seen) (field maximum seen s)
  unfolding field
  field_lem maximum seen s =
      Ensures-bind (Cbor.u_int maximum s)
        λ x _. Ensures-require (not (x.0 == 0) && not (contains seen x.0)) _ λ _. returns refl

  checked_fields :
      (n : ℕ) (a : AccountKey core hd) (s : Bytes)
      → FieldsChecked a
      → Ensures
          (λ (x : AccountKey core hd × Bytes). FieldsChecked x.0)
          (account_fields core hd n a s)
  unfolding account_fields
  checked_fields zero a s h = returns h
  checked_fields (suc n) a s h = Ensures-bind (field 10 a.seen s) λ x e.
      let same = Ensures-value (field_lem 10 a.seen s) x e in
      rw (same) (
        Ensures-bind (account_field core hd x.0.0 (record a { seen = x.0.0 ∷ a.seen }) x.1)
          λ y e'. checked_fields n y.0 y.1 (Ensures-value (checked_field x.0.0 a x.1 h) y e'))

  -- What is known of a key whose text was returned.
  abbrev pub CheckedKey : ℕ → Bool → Bytes → AccountKey core hd → Type 0
  CheckedKey script_type mainnet text a =
      (text
        ≡ origin_text core hd a.fingerprint a.path
            (hd.ext_key a.pub_key a.chain_code
              (if contains a.seen 8 then a.parent else a.fingerprint) (length a.path)
              (last_or_zero core a.path))
            mainnet)
      × (multisig_account_path a.path script_type mainnet ≡ true)
      × (length a.pub_key ≡ 33)
      × (core.is_fully_valid a.pub_key ≡ true)
      × (length a.chain_code ≡ 32)
      × (a.network ≡ (if mainnet then 0 else 1))

  finished :
      (a : AccountKey core hd) (script_type : ℕ) (mainnet : Bool)
      → FieldsChecked a
      → Ensures
          (λ text. CheckedKey script_type mainnet text a)
          (finish_account core hd a script_type mainnet)
  unfolding finish_account
  finished a script_type mainnet (h3, h4) =
      Ensures-require
        (contains a.seen 3
          && (contains a.seen 4 && (contains a.seen 6 && a.network == (if mainnet then 0 else 1))))
        _
        λ c. Ensures-require (multisig_account_path a.path script_type mainnet) _ λ standard.
          Ensures-require (contains a.seen 8 || length a.path == 1) _ λ _.
            let parent = if contains a.seen 8 then a.parent else a.fingerprint in
            Ensures-require
              (not (length a.path == 1) || hd.read_be32 parent == hd.read_be32 a.fingerprint) _
              λ _.
                let (c3, d) = and-true (contains a.seen 3) _ c in
                let (c4, d') = and-true (contains a.seen 4) _ d in
                let (_, net) = and-true (contains a.seen 6) _ d' in
                let (long, valid) = present (contains a.seen 3) c3 h3 in
                returns (
                  refl,
                  standard,
                  long,
                  valid,
                  present (contains a.seen 4) c4 h4,
                  (==_iff a.network (if mainnet then 0 else 1)).0 net,
                )
    where
      present : {C : Type 0} (b : Bool) → b ≡ true → (b ≡ false) ⊎ C → C
      present b e (inl no_field) = cc
      present b e (inr c) = c

  -- The text of an account key that was read names a standard account path of the script type and the network, and
  -- encodes a valid compressed public key with a chain code of 32 bytes, at the depth and with the
  -- child number of that path.
  pub account_checked :
      (script_type : ℕ) (mainnet : Bool) (s text rest : Bytes)
      → ◌≡◌ {A = Result (Bytes × Bytes)}
          (read_account core hd script_type mainnet s)
          (ok (text, rest))
      → (a : AccountKey core hd) × CheckedKey script_type mainnet text a
  unfolding read_account
  account_checked script_type mainnet s text rest =
      Ensures-value
        {P = λ (x : Bytes × Bytes). (a : AccountKey core hd) × CheckedKey script_type mainnet x.0 a}
        (Ensures-bind (Cbor.tag s) λ x _. Ensures-require (x.0 == 303) _ λ _.
          Ensures-bind (Cbor.map 10 x.1) λ y _.
            Ensures-bind (account_fields core hd y.0 (no_key core hd) y.1) λ z e.
              Ensures-bind (finish_account core hd z.0 script_type mainnet) λ t f. returns (
                z.0,
                Ensures-value
                    (finished z.0 script_type mainnet (
                      Ensures-value (checked_fields y.0 (no_key core hd) y.1 (inl refl, inl refl)) z
                        e))
                    t f,
              ))
        (text, rest)
