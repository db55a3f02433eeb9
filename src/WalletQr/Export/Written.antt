-- ===== src/WalletQr/Export/Written.antt =====
-- src/wallet_qr.cpp, HDKeyCBOR: the bytes of an exported key.
use thunderden.Base.{
  ℕ, ◌+◌, ◌*◌, ◌%◌, ◌^◌, ◌<◌, ◌≤◌, ◌≡◌, refl, ap, ◌∙◌, Bool, true, false, List, [], ◌∷◌, ◌++◌, ◌==◌,
  Bool-cases, inl, inr, if◌then◌else◌, length, append_assoc, Bytes, arith,
}
use thunderden.Cbor.Encoding.{encode_head, encode_string}
use thunderden.Cbor.Writer
use thunderden.Cbor.Writer.{CborLite, IsCanonical, CborWriter}
use thunderden.Core.{Core}
use thunderden.Keys.{Keys, hardened, is_hardened, root_fingerprint}
use thunderden.WalletQr.{HdKeys}
use thunderden.WalletQr.Export.{
  empty, write_steps, write_network, write_key_origin, write_parent, write_key,
}

-- What the writer has written, with the bytes that follow.
abbrev pub behind : CborWriter → Bytes → Bytes
behind w rest = w.written ++ rest

-- The steps of a path, an index and a Boolean each.
abbrev pub step_bytes : List ℕ → Bytes → Bytes
step_bytes [] rest = rest
step_bytes (i ∷ path) rest =
    encode_head 0 (i % hardened)
    ++ (encode_head 7 (if is_hardened i then 21 else 20) ++ step_bytes path rest)

-- The fields of the key in turn, each with the bytes that follow it.
abbrev pub network_bytes : Bool → Bytes → Bytes
network_bytes mainnet rest =
    if mainnet
    then rest
    else encode_head 0 5
      ++ (encode_head 6 305
          ++ (encode_head 5 2
              ++ (encode_head 0 1
                  ++ (encode_head 0 0 ++ (encode_head 0 2 ++ (encode_head 0 1 ++ rest))))))

abbrev pub origin_bytes : ℕ → List ℕ → Bytes → Bytes
origin_bytes fingerprint path rest =
    encode_head 0 6
    ++ (encode_head 6 304
        ++ (encode_head 5 3
            ++ (encode_head 0 1
                ++ (encode_head 4 (length path * 2)
                    ++ step_bytes path (
                        encode_head 0 2
                        ++ (encode_head 0 fingerprint
                            ++ (encode_head 0 3 ++ (encode_head 0 (length path) ++ rest))))))))

abbrev pub key_bytes : Bool → Bytes → Bytes → ℕ → List ℕ → ℕ → Bytes → Bytes
key_bytes mainnet pub_key chain_code fingerprint path parent rest =
    encode_head 5 (3 + ((if mainnet then 0 else 1) + 1))
    ++ (encode_head 0 3
        ++ (encode_string 2 pub_key
            ++ (encode_head 0 4
                ++ (encode_string 2 chain_code
                    ++ network_bytes mainnet (
                        origin_bytes fingerprint path
                          (encode_head 0 8 ++ (encode_head 0 parent ++ rest)))))))

module _ (lib : CborLite) (c : IsCanonical lib) where
  pub u_int-behind :
      (w : CborWriter) (n : ℕ) (rest : Bytes)
      → n < 2 ^ 64
      → behind (Writer.u_int lib w n) rest ≡ behind w (encode_head 0 n ++ rest)
  unfolding Writer.u_int
  u_int-behind w n rest h =
      ap (λ x. x ++ rest) (c.unsigned w.written n h) ∙ append_assoc w.written (encode_head 0 n) rest

  pub array-behind :
      (w : CborWriter) (n : ℕ) (rest : Bytes)
      → n < 2 ^ 64
      → behind (Writer.array lib w n) rest ≡ behind w (encode_head 4 n ++ rest)
  unfolding Writer.array
  array-behind w n rest h =
      ap (λ x. x ++ rest) (c.array_size w.written n h)
      ∙ append_assoc w.written (encode_head 4 n) rest

  pub map-behind :
      (w : CborWriter) (n : ℕ) (rest : Bytes)
      → n < 2 ^ 64
      → behind (Writer.map lib w n) rest ≡ behind w (encode_head 5 n ++ rest)
  unfolding Writer.map
  map-behind w n rest h =
      ap (λ x. x ++ rest) (c.map_size w.written n h) ∙ append_assoc w.written (encode_head 5 n) rest

  pub tag-behind :
      (w : CborWriter) (n : ℕ) (rest : Bytes)
      → n < 2 ^ 64
      → behind (Writer.tag lib w n) rest ≡ behind w (encode_head 6 n ++ rest)
  unfolding Writer.tag
  tag-behind w n rest h =
      ap (λ x. x ++ rest) (c.semantic w.written n h) ∙ append_assoc w.written (encode_head 6 n) rest

  pub bool-behind :
      (w : CborWriter) (v : Bool) (rest : Bytes)
      → behind (Writer.bool lib w v) rest ≡ behind w (encode_head 7 (if v then 21 else 20) ++ rest)
  unfolding Writer.bool
  bool-behind w v rest =
      ap (λ x. x ++ rest) (c.boolean w.written v)
      ∙ append_assoc w.written (encode_head 7 (if v then 21 else 20)) rest

  pub bytes-behind :
      (w : CborWriter) (v rest : Bytes)
      → length v < 2 ^ 64
      → behind (Writer.bytes lib w v) rest ≡ behind w (encode_string 2 v ++ rest)
  unfolding Writer.bytes
  bytes-behind w v rest h =
      ap (λ x. x ++ rest) (c.byte_string w.written v h)
      ∙ append_assoc w.written (encode_string 2 v) rest

  module _ (core : Core) (hd : HdKeys core) (mainnet : Bool) where
    write_steps-behind :
        (w : CborWriter) (path : List ℕ) (rest : Bytes)
        → behind (write_steps core hd lib mainnet w path) rest ≡ behind w (step_bytes path rest)
    unfolding write_steps
    write_steps-behind w [] rest = refl
    write_steps-behind w (i ∷ path) rest =
        write_steps-behind (Writer.bool lib (Writer.u_int lib w (i % hardened)) (is_hardened i))
          path rest
        ∙ (bool-behind (Writer.u_int lib w (i % hardened)) (is_hardened i) (step_bytes path rest)
            ∙ u_int-behind w (i % hardened)
                (encode_head 7 (if is_hardened i then 21 else 20) ++ step_bytes path rest)
                (omega arith))

    write_network-behind :
        (w : CborWriter) (rest : Bytes)
        → behind (write_network core hd lib mainnet w true) rest
          ≡ behind w (network_bytes mainnet rest)
    unfolding write_network
    write_network-behind w rest = elim (Bool-cases mainnet) [
      | inl main ↦ rw (main) refl
      | inr test ↦ rw (test) (
          u_int-behind _ 1 _ (omega arith)
          ∙ (u_int-behind _ 2 _ (omega arith)
              ∙ (u_int-behind _ 0 _ (omega arith)
                  ∙ (u_int-behind _ 1 _ (omega arith)
                      ∙ (map-behind _ 2 _ (omega arith)
                          ∙ (tag-behind _ 305 _ (omega arith)
                              ∙ (u_int-behind _ 5 _ (omega arith))))))))
    ]

    write_key_origin-behind :
        (w : CborWriter) (keys : Keys core) (path : List ℕ) (rest : Bytes)
        → length path ≤ 32
        → hd.read_be32 (root_fingerprint core keys) < 2 ^ 32
        → behind (write_key_origin core hd lib mainnet w keys path true) rest
          ≡ behind w (origin_bytes (hd.read_be32 (root_fingerprint core keys)) path rest)
    unfolding write_key_origin
    write_key_origin-behind w keys path rest short small =
        u_int-behind _ (length path) _ (omega (arith, short))
        ∙ (u_int-behind _ 3 _ (omega arith)
            ∙ (u_int-behind _ (hd.read_be32 (root_fingerprint core keys)) _ (omega (arith, small))
                ∙ (u_int-behind _ 2 _ (omega arith)
                    ∙ (write_steps-behind _ path _
                        ∙ (array-behind _ (length path * 2) _ (omega (arith, short))
                            ∙ (u_int-behind _ 1 _ (omega arith)
                                ∙ (map-behind _ 3 _ (omega arith)
                                    ∙ (tag-behind _ 304 _ (omega arith)
                                        ∙ (u_int-behind _ 6 _ (omega arith))))))))))

    pub write_key_bytes :
        (keys : Keys core) (path : List ℕ) (key : core.ExtPubKey) (rest : Bytes)
        → length path ≤ 32
        → hd.read_be32 (root_fingerprint core keys) < 2 ^ 32
        → hd.read_be32 (hd.parent_fingerprint key) < 2 ^ 32
        → (hd.read_be32 (hd.parent_fingerprint key) == 0) ≡ false
        → length (core.pubkey key) ≡ 33
        → length (hd.chain_code key) ≡ 32
        → (write_key core hd lib mainnet empty keys path key true).written ++ rest
          ≡ key_bytes mainnet
              (core.pubkey key)
              (hd.chain_code key)
              (hd.read_be32 (root_fingerprint core keys))
              path
              (hd.read_be32 (hd.parent_fingerprint key))
              rest
    unfolding write_key write_parent
    write_key_bytes keys path key rest short small small' known long long' = rw (known) (
        u_int-behind _ (hd.read_be32 (hd.parent_fingerprint key)) _ (omega (arith, small'))
        ∙ (u_int-behind _ 8 _ (omega arith)
            ∙ (write_key_origin-behind _ keys path _ short small
                ∙ (write_network-behind _ _
                    ∙ (bytes-behind _ (hd.chain_code key) _ (omega (arith, long'))
                        ∙ (u_int-behind _ 4 _ (omega arith)
                            ∙ (bytes-behind _ (core.pubkey key) _ (omega (arith, long))
                                ∙ (u_int-behind _ 3 _ (omega arith)
                                    ∙ (map-behind _ (3 + ((if mainnet then 0 else 1) + 1)) _
                                        few)))))))))
      where
        few : 3 + ((if mainnet then 0 else 1) + 1) < 2 ^ 64
        few = ground arith
