-- ===== src/WalletQr/Tests.antt =====
-- A crypto-output of two legacy accounts, and an exported account.
use thunderden.Base.{
  ℕ, ◌+◌, ◌*◌, ◌/◌, ◌%◌, ◌^◌, ◌≤◌, ◌≡◌, refl, true, List, [], ◌∷◌, ◌++◌, none, replicate, length,
  codes, Bytes, Result, ok, leb→le,
}
use thunderden.Cbor
use thunderden.Cbor.Encoding.{encode_head}
use thunderden.Core.{Core}
use thunderden.Keys.{
  Keys, hardened, path_text, steps_text, step_text, encode_public, public_at, derive, derive_from,
  root_fingerprint,
}
use thunderden.Decimal.{to_string, digits_of, span_digits, digits_value, from_chars}
use thunderden.Policy.Tests.{core, multisig}
use thunderden.Transport.{QrMessage, max_wallet_setup}
use thunderden.WalletQr.{HdKeys, field}
use thunderden.WalletQr.Account.{
  AccountKey, read_steps, origin_field, origin_fields, key_field, chain_code_field,
  key_origin_field, account_field, account_fields, origin_text, finish_account, read_account,
}
use thunderden.WalletQr.Account.Checked.{CheckedKey, account_checked}
use thunderden.WalletQr.Import.{
  read_script_type, read_accounts, multisig_field, multisig_fields, read_crypto_output,
  import_multisig,
}
use thunderden.WalletQr.Import.Accepted.{Accepted, imported_multisig}
use thunderden.Policy.KeyText.{
  read_key, read_xpub, read_origin, origin_loop, take_token, number, harden,
}
use thunderden.Policy.Template.{
  scan, initial, round, reference, plain, nest, branches, new_paths, has_index, has_path, expansion,
  with_reference, with_char,
}
use thunderden.Policy.Build.{
  build, header, is_wrapper, read_keys, has_pubkey, has_key, same_keys, check_descriptor,
  check_descriptors, key_of, text_of,
}
use thunderden.Policy.Standard.{
  multisig_policy, multisig_text, multisig_name, multisig_account_path, is_multisig_key,
  check_origins, last_or_zero,
}
use thunderden.Cbor.Tests.{cbor_lite, cbor_lite-IsCanonical}
use thunderden.WalletQr.Export.{hd_key_cbor, public_key_text}
use thunderden.WalletQr.Export.RoundTrip.{IsKept, IsAccountKey, account_read_back}

abbrev be32 : Bytes → ℕ
be32 (a ∷ (b ∷ (c ∷ (d ∷ [])))) = ((a * 256 + b) * 256 + c) * 256 + d
be32 s = 0

abbrev last_of : Bytes → ℕ
last_of [] = 0
last_of (c ∷ []) = c
last_of (c ∷ (d ∷ s)) = last_of (d ∷ s)

abbrev hd : HdKeys core
hd = record {
  chain_code = λ k. replicate 32 3;
  parent_fingerprint = λ k. 1 ∷ (2 ∷ (3 ∷ (4 ∷ [])));
  ext_key = λ k c f d n. k;
  read_be32 = be32;
  write_be32 = λ n. (n / 2 ^ 24) ∷ ((n / 2 ^ 16 % 256) ∷ ((n / 256 % 256) ∷ ((n % 256) ∷ [])));
  parse_hd_keypath = λ s. none;
}

-- Tag 303 with a compressed key, a chain code and the origin m/45h of fingerprint 0.
abbrev account_bytes : ℕ → Bytes
account_bytes c =
    (0xD9 ∷ 0x01 ∷ 0x2F ∷ 0xA3 ∷ 0x03 ∷ 0x58 ∷ 0x21 ∷ [])
    ++ (replicate 32 2
        ++ ((c ∷ 0x04 ∷ 0x58 ∷ 0x20 ∷ [])
            ++ (replicate 32 3
                ++ (0x06 ∷ 0xD9 ∷ 0x01 ∷ 0x30 ∷ 0xA2 ∷ 0x01 ∷ 0x82 ∷ 0x18 ∷ 0x2D ∷ 0xF5 ∷ 0x02
                    ∷ 0x00 ∷ []))))

abbrev key_text : Bytes
key_text = codes "[00000000/45h]xpubA"

account_checked_example : (a : AccountKey core hd) × CheckedKey core hd 0 true key_text a
unfolding read_account Cbor.tag Cbor.map Cbor.array Cbor.bytes Cbor.u_int Cbor.bool Cbor.data_item
    Cbor.head Cbor.long_head Cbor.read_be Cbor.next_byte account_fields account_field field
    key_field chain_code_field key_origin_field origin_fields origin_field read_steps finish_account
    origin_text path_text steps_text step_text to_string digits_of encode_public
    multisig_account_path
account_checked_example = account_checked core hd 0 true (account_bytes b'A') key_text [] refl

-- A sorted 1 of 2 multisig in a script hash.
abbrev message : QrMessage
message = record {
  type = codes "crypto-output";
  cbor =
      (0xD9 ∷ 0x01 ∷ 0x90 ∷ 0xD9 ∷ 0x01 ∷ 0x97 ∷ 0xA2 ∷ 0x01 ∷ 0x01 ∷ 0x02 ∷ 0x82 ∷ [])
      ++ (account_bytes b'A' ++ account_bytes b'B');
  secret = [];
}

imported_multisig_example :
    Accepted core hd true multisig × (length message.cbor ≤ max_wallet_setup)
unfolding import_multisig read_crypto_output read_script_type multisig_fields multisig_field
    read_accounts Cbor.end read_account Cbor.tag Cbor.map Cbor.array Cbor.bytes Cbor.u_int Cbor.bool
    Cbor.data_item Cbor.head Cbor.long_head Cbor.read_be Cbor.next_byte account_fields account_field
    field key_field chain_code_field key_origin_field origin_fields origin_field read_steps
    finish_account origin_text path_text steps_text step_text to_string digits_of encode_public
    multisig_policy multisig_text multisig_name multisig_account_path is_multisig_key check_origins
    build header is_wrapper read_keys has_pubkey read_key read_xpub read_origin origin_loop
    take_token number harden scan initial round reference plain nest branches new_paths has_index
    has_path expansion with_reference with_char has_key same_keys check_descriptor check_descriptors
    key_of text_of span_digits digits_value from_chars last_or_zero
imported_multisig_example = imported_multisig core hd true message multisig refl

-- Keys with a fingerprint that is not zero.
abbrev core_b : Core
core_b = record core { key_id = λ k. 1 ∷ (2 ∷ (3 ∷ (4 ∷ []))); pubkey = λ k. replicate 33 2 }

abbrev hd_b : HdKeys core_b
hd_b = record {
  chain_code = λ k. replicate 32 3;
  parent_fingerprint = λ k. 1 ∷ (2 ∷ (3 ∷ (4 ∷ [])));
  ext_key = λ k c f d n. 7 ∷ [];
  read_be32 = be32;
  write_be32 = λ n. (n / 2 ^ 24) ∷ ((n / 2 ^ 16 % 256) ∷ ((n / 256 % 256) ∷ ((n % 256) ∷ [])));
  parse_hd_keypath = λ s. none;
}

abbrev keys_b : Keys core_b
keys_b = record { root = 7 ∷ []; registration_key = [] }

abbrev account_path : List ℕ
account_path = (hardened + 45) ∷ []

fingerprint-IsKept : IsKept core_b hd_b (1 ∷ (2 ∷ (3 ∷ (4 ∷ []))))
fingerprint-IsKept = record { back = refl; small = leb→le 16909061 (2 ^ 32) refl }

key-IsAccountKey : IsAccountKey core_b hd_b account_path (7 ∷ [])
unfolding last_or_zero
key-IsAccountKey = record {
  compressed = refl;
  valid = refl;
  chained = refl;
  deep = refl;
  numbered = refl;
  rebuilt = refl;
}

account_read_back_example :
    (written : Bytes) × (text : Bytes) × (hd_key_cbor core_b hd_b cbor_lite true keys_b account_path
        true
      ≡ ok written)
    × (public_key_text core_b hd_b cbor_lite true keys_b account_path ≡ ok text)
    × (◌≡◌ {A = Result (Bytes × Bytes)}
        (read_account core_b hd_b 0 true (encode_head 6 303 ++ (written ++ (5 ∷ []))))
        (ok (text, 5 ∷ [])))
unfolding public_at derive derive_from root_fingerprint multisig_account_path
account_read_back_example =
    account_read_back core_b hd_b cbor_lite cbor_lite-IsCanonical true 0 keys_b account_path
      (7 ∷ []) (5 ∷ []) refl refl (leb→le (hardened + 46) (2 ^ 32) refl, tt) key-IsAccountKey
      fingerprint-IsKept fingerprint-IsKept refl (λ e. refl)
