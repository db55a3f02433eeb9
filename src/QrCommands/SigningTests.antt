-- ===== src/QrCommands/SigningTests.antt =====
-- The signing command on the request of Transaction/Tests.
use thunderden.Base.{refl, false, [], ◌∷◌, ◌++◌, none, some, Bytes, codes, replicate}
use thunderden.Cbor
use thunderden.Cbor.Tests.{cbor_lite}
use thunderden.Decimal.{to_string, digits_of, span_digits, digits_value, from_chars}
use thunderden.Keys.{verify_tag, public_at, derive, derive_from, root_fingerprint, registration_tag}
use thunderden.Policy.KeyText.{
  read_key, read_xpub, read_origin, origin_loop, take_token, number, harden,
}
use thunderden.Policy.Template.{
  scan, initial, round, reference, plain, nest, branches, new_paths, has_index, has_path, expansion,
  with_reference, with_char,
}
use thunderden.Policy.Build.{
  build, header, is_wrapper, read_keys, has_pubkey, has_key, same_keys, check_descriptor,
  check_descriptors, key_of, text_of,
}
use thunderden.Policy.Owner.{authorized, owned_keys, owned_from, owns, is_default, id}
use thunderden.Policy.Positions.{
  last_steps, names_account, ref_positions, all_positions, positions, public_provider, script,
  accounts, private_provider,
}
use thunderden.Policy.Tests.{core, session, multisig}
use thunderden.QrCommands.{
  QrApproval, signed_body, sign_transaction, read_authorized, read_policy, read_texts,
}
use thunderden.QrCommands.Signing.{sign_request, IsBacked, command_signed}
use thunderden.QrCommands.Tests
use thunderden.Transaction.{
  add_amount, witness_version, external_scripts, signing_rule, txout_eq, check_signatures,
  check_leaves, check_scripts,
}
use thunderden.Transaction.Locate.{position_lt, insert, insert_all, collect, pick, locate}
use thunderden.Transaction.Read.{
  previous_output, check_xpubs, check_input, gather, add_outputs, check_final, read_psbt,
}
use thunderden.Transaction.Review.{
  TransactionReview, clean_input, restore_public, estimate, open_input, review_input, review_inputs,
  review_outputs, is_recognized, any_input, review_transaction, review_raw,
}
use thunderden.Transaction.Sign.{
  changed_entries, same_signature, is_open, added_signatures, sign_one, sign_inputs, verify_from,
  sign_approved, sign,
}
use thunderden.Transaction.Tests.{bitcoin, lib, agree}

abbrev approve : QrApproval (TransactionReview core bitcoin)
approve = record {
  export_key = none;
  register_wallet = none;
  address = none;
  transaction = some agree;
}

abbrev key_a : Bytes
key_a = codes "[00000000/45h]xpubA"

abbrev key_b : Bytes
key_b = codes "[00000000/45h]xpubB"

-- A policy of name, template and keys, its proof and the bytes of a request.
abbrev command_bytes : Bytes
command_bytes =
    (0x83 ∷ 0x83 ∷ 0x78 ∷ 24 ∷ [])
    ++ (multisig.name
        ++ ((0x78 ∷ 30 ∷ [])
            ++ (multisig.text
                ++ ((0x82 ∷ 0x73 ∷ [])
                    ++ (key_a
                        ++ ((0x73 ∷ [])
                            ++ (key_b
                                ++ ((0x58 ∷ 32 ∷ []) ++ (replicate 32 7 ++ (0x41 ∷ 1 ∷ []))))))))))

abbrev body : Bytes
body =
    signed_body core cbor_lite Tests.signer
      (record { psbt = 1 ∷ (0 ∷ []); added_signatures = 1; complete = false })

command_signed_example : IsBacked core bitcoin lib cbor_lite Tests.signer session approve body
unfolding sign_transaction signed_body read_authorized read_policy read_texts sign_request
    review_raw Cbor.tuple Cbor.array Cbor.u_int Cbor.bytes Cbor.text Cbor.data_item Cbor.head
    Cbor.long_head Cbor.read_be Cbor.next_byte Cbor.end build header is_wrapper read_keys has_pubkey
    read_key read_xpub read_origin origin_loop take_token number harden scan initial round reference
    plain nest branches new_paths has_index has_path expansion with_reference with_char has_key
    same_keys check_descriptor check_descriptors key_of text_of to_string digits_of span_digits
    digits_value from_chars read_psbt gather check_xpubs check_input previous_output txout_eq
    add_outputs check_final review_transaction authorized is_default owned_keys owned_from owns
    public_at derive derive_from root_fingerprint verify_tag registration_tag review_inputs
    review_input locate collect pick insert_all insert position_lt positions last_steps
    all_positions ref_positions names_account script public_provider witness_version
    external_scripts signing_rule add_amount open_input check_signatures clean_input check_scripts
    check_leaves restore_public any_input is_recognized review_outputs estimate id is_open sign
    sign_approved sign_inputs sign_one private_provider accounts added_signatures changed_entries
    same_signature verify_from
command_signed_example =
    command_signed core bitcoin lib cbor_lite Tests.signer session approve command_bytes body refl
