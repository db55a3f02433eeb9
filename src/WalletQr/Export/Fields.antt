-- ===== src/WalletQr/Export/Fields.antt =====
-- src/wallet_qr.cpp, ReadAccount: each of its fields on what HDKeyCBOR writes for it.
use thunderden.Base.{
  ℕ, suc, ◌+◌, ◌*◌, ◌/◌, ◌%◌, ◌^◌, ◌<◌, ◌≤◌, ◌≡◌, refl, sym, ap, ◌∙◌, true, not, ◌&&◌, List, [],
  ◌∷◌, ◌++◌, ◌==◌, if◌then◌else◌, length, All, append_assoc, append-nil, contains, Bytes, arith,
  Result, ok, bind-ok, require-ok, ==_iff, ==_refl,
}
use thunderden.Cbor
use thunderden.Cbor.Encoding.{encode_head, encode_string}
use thunderden.Cbor.RoundTrip.{
  u_int-encode, array-encode, map-encode, tag-encode, bytes-encode, bool-encode,
}
use thunderden.Core.{Core}
use thunderden.Keys.{hardened, is_hardened}
use thunderden.WalletQr.{HdKeys, field}
use thunderden.WalletQr.Account.{
  AccountKey, read_steps, origin_field, origin_fields, network_fields, key_field, chain_code_field,
  network_field, key_origin_field, parent_field, account_field, account_fields,
}
use thunderden.WalletQr.Export.Written.{step_bytes}

field-back :
    (maximum : ℕ) (seen : List ℕ) (n : ℕ) (rest : Bytes)
    → n ≤ maximum
    → n < 2 ^ 64
    → not (n == 0) && not (contains seen n) ≡ true
    → field maximum seen (encode_head 0 n ++ rest) ≡ ok ((n, n ∷ seen), rest)
unfolding field
field-back maximum seen n rest h k new =
    bind-ok (Cbor.u_int maximum (encode_head 0 n ++ rest)) _ (u_int-encode maximum n rest h k)
      (require-ok (not (n == 0) && not (contains seen n)) _ new refl)

step-value : (i : ℕ) → i < 2 ^ 32 → i % hardened + (if is_hardened i then hardened else 0) ≡ i
step-value i h = ground arith

read_steps-back :
    (path done : List ℕ) (rest : Bytes)
    → All (λ i. i < 2 ^ 32) path
    → read_steps (length path) done (step_bytes path rest) ≡ ok (done ++ path, rest)
unfolding read_steps
read_steps-back [] done rest h = ap (λ x. ok (x, rest)) (sym (append-nil done))
read_steps-back (i ∷ path) done rest h =
    bind-ok (Cbor.u_int 0x7fff_ffff _) _
      (u_int-encode 0x7fff_ffff (i % hardened) _ (omega arith) (omega arith))
      (bind-ok (Cbor.bool _) _ (bool-encode (is_hardened i) (step_bytes path rest)) (
        read_steps-back path (done ++ (_ ∷ [])) rest h.1
        ∙ ap (λ x. ok (x, rest))
            (append_assoc done (_ ∷ []) path ∙ ap (λ x. done ++ (x ∷ path)) (step-value i h.0))))

module _ (core : Core) (hd : HdKeys core) where
  origin_fields-back :
      (path : List ℕ) (fingerprint : ℕ) (fingerprint' rest : Bytes)
      → 1 ≤ length path
      → length path ≤ 4
      → All (λ i. i < 2 ^ 32) path
      → fingerprint < 2 ^ 32
      → origin_fields core hd 3
          (record { fields = []; path = []; fingerprint = fingerprint'; depth = 0 })
          (encode_head 0 1
            ++ (encode_head 4 (length path * 2)
                ++ step_bytes path (
                    encode_head 0 2
                    ++ (encode_head 0 fingerprint
                        ++ (encode_head 0 3 ++ (encode_head 0 (length path) ++ rest))))))
        ≡ ok (
          record {
            fields = 3 ∷ (2 ∷ (1 ∷ []));
            path = path;
            fingerprint = hd.write_be32 fingerprint;
            depth = length path;
          },
          rest,
        )
  unfolding origin_fields origin_field
  origin_fields-back path fingerprint fingerprint' rest some_step short steps small =
      let half : length path * 2 / 2 ≡ length path = omega arith in
      bind-ok (field 3 [] _) _ (field-back 3 [] 1 _ (omega arith) (omega arith) refl) (
        bind-ok _ _
          (bind-ok (Cbor.array 8 _) _
            (array-encode 8 (length path * 2) _ (omega (arith, short)) (omega (arith, short)))
            (require-ok (not (length path * 2 == 0) && length path * 2 % 2 == 0) _
              (ground (arith, some_step))
              (bind-ok (read_steps (length path * 2 / 2) [] _) _
                (rw (half) (read_steps-back path [] _ steps)) refl)))
          (bind-ok (field 3 (1 ∷ []) _) _
            (field-back 3 (1 ∷ []) 2 _ (omega arith) (omega arith) refl)
            (bind-ok _ _
              (bind-ok (Cbor.u_int Cbor.uint32_max _) _
                (u_int-encode Cbor.uint32_max fingerprint _ (omega (arith, small))
                  (omega (arith, small)))
                refl)
              (bind-ok (field 3 (2 ∷ (1 ∷ [])) _) _
                (field-back 3 (2 ∷ (1 ∷ [])) 3 _ (omega arith) (omega arith) refl)
                (bind-ok _ _
                  (bind-ok (Cbor.u_int 255 _) _
                    (u_int-encode 255 (length path) rest (omega (arith, short))
                      (omega (arith, short)))
                    refl)
                  refl)))))

  abbrev pub key_state : List ℕ → Bytes → Bytes → ℕ → Bytes → List ℕ → Bytes → AccountKey core hd
  key_state seen pub_key chain_code network fingerprint path parent = record {
    seen = seen;
    pub_key = pub_key;
    chain_code = chain_code;
    network = network;
    fingerprint = fingerprint;
    path = path;
    parent = parent;
  }

  -- One round of the loop over the fields of a key.
  pub next_field :
      (n f : ℕ) (a a' : AccountKey core hd) (rest rest' : Bytes)
      → f ≤ 10
      → not (f == 0) && not (contains a.seen f) ≡ true
      → ◌≡◌ {A = Result (AccountKey core hd × Bytes)}
          (account_field core hd f (record a { seen = f ∷ a.seen }) rest)
          (ok (a', rest'))
      → account_fields core hd (suc n) a (encode_head 0 f ++ rest)
        ≡ account_fields core hd n a' rest'
  unfolding account_fields
  next_field n f a a' rest rest' small new e =
      bind-ok (field 10 a.seen _) _ (field-back 10 a.seen f rest small (omega (arith, small)) new)
        (bind-ok (account_field core hd f (record a { seen = f ∷ a.seen }) rest) _ e refl)

  pub key-back :
      (a : AccountKey core hd) (pub_key rest : Bytes)
      → length pub_key ≡ 33
      → core.is_fully_valid pub_key ≡ true
      → ◌≡◌ {A = Result (AccountKey core hd × Bytes)}
          (account_field core hd 3 a (encode_string 2 pub_key ++ rest))
          (ok (record a { pub_key = pub_key }, rest))
  unfolding account_field key_field
  key-back a pub_key rest long valid =
      bind-ok (Cbor.bytes 33 _) _
        (bytes-encode 33 pub_key rest (omega (arith, long)) (omega (arith, long)))
        (require-ok (length pub_key == 33) _ ((==_iff (length pub_key) 33).1 long)
          (require-ok (core.is_fully_valid pub_key) _ valid refl))

  pub chain_code-back :
      (a : AccountKey core hd) (code rest : Bytes)
      → length code ≡ 32
      → ◌≡◌ {A = Result (AccountKey core hd × Bytes)}
          (account_field core hd 4 a (encode_string 2 code ++ rest))
          (ok (record a { chain_code = code }, rest))
  unfolding account_field chain_code_field
  chain_code-back a code rest long =
      bind-ok (Cbor.bytes 32 _) _
        (bytes-encode 32 code rest (omega (arith, long)) (omega (arith, long)))
        (require-ok (length code == 32) _ ((==_iff (length code) 32).1 long) refl)

  pub network-back :
      (a : AccountKey core hd) (rest : Bytes)
      → ◌≡◌ {A = Result (AccountKey core hd × Bytes)}
          (account_field core hd 5 a (
            encode_head 6 305
            ++ (encode_head 5 2
                ++ (encode_head 0 1
                    ++ (encode_head 0 0 ++ (encode_head 0 2 ++ (encode_head 0 1 ++ rest)))))))
          (ok (record a { network = 1 }, rest))
  unfolding account_field network_field network_fields
  network-back a rest = bind-ok (Cbor.tag _) _ (tag-encode 305 _ (omega arith)) (
      bind-ok (Cbor.map 2 _) _ (map-encode 2 2 _ (omega arith) (omega arith)) (
        bind-ok (network_fields 2 [] a.network _) _
          (bind-ok (field 2 [] _) _ (field-back 2 [] 1 _ (omega arith) (omega arith) refl) (
            bind-ok _ _
              (bind-ok (Cbor.u_int Cbor.uint32_max _) _
                (u_int-encode Cbor.uint32_max 0 _ (omega arith) (omega arith)) refl)
              (bind-ok (field 2 (1 ∷ []) _) _
                (field-back 2 (1 ∷ []) 2 _ (omega arith) (omega arith) refl)
                (bind-ok (Cbor.u_int 1 _) _ (u_int-encode 1 1 rest (omega arith) (omega arith))
                  refl))))
          refl))

  pub key_origin-back :
      (a : AccountKey core hd) (fingerprint : ℕ) (path : List ℕ) (rest : Bytes)
      → a.path ≡ []
      → 1 ≤ length path
      → length path ≤ 4
      → All (λ i. i < 2 ^ 32) path
      → fingerprint < 2 ^ 32
      → ◌≡◌ {A = Result (AccountKey core hd × Bytes)}
          (account_field core hd 6 a (
            encode_head 6 304
            ++ (encode_head 5 3
                ++ (encode_head 0 1
                    ++ (encode_head 4 (length path * 2)
                        ++ step_bytes path (
                            encode_head 0 2
                            ++ (encode_head 0 fingerprint
                                ++ (encode_head 0 3 ++ (encode_head 0 (length path) ++ rest)))))))))
          (ok (record a { path = path; fingerprint = hd.write_be32 fingerprint }, rest))
  unfolding account_field key_origin_field
  key_origin-back a fingerprint path rest fresh some_step short steps small = rw (fresh) (
      bind-ok (Cbor.tag _) _ (tag-encode 304 _ (omega arith)) (
        bind-ok (Cbor.map 3 _) _ (map-encode 3 3 _ (omega arith) (omega arith)) (
          bind-ok
            (origin_fields core hd 3
              (record { fields = []; path = []; fingerprint = a.fingerprint; depth = 0 }) _)
            _ (origin_fields-back path fingerprint a.fingerprint rest some_step short steps small)
            (require-ok (length path == length path) _ (==_refl (length path)) refl))))

  pub parent-back :
      (a : AccountKey core hd) (parent : ℕ) (rest : Bytes)
      → parent < 2 ^ 32
      → ◌≡◌ {A = Result (AccountKey core hd × Bytes)}
          (account_field core hd 8 a (encode_head 0 parent ++ rest))
          (ok (record a { parent = hd.write_be32 parent }, rest))
  unfolding account_field parent_field
  parent-back a parent rest small =
      bind-ok (Cbor.u_int Cbor.uint32_max _) _
        (u_int-encode Cbor.uint32_max parent rest (omega (arith, small)) (omega (arith, small)))
        refl
