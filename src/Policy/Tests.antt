-- ===== src/Policy/Tests.antt =====
-- Policies at concrete values. The record `core` stands for Bitcoin Core: an extended key is its text,
-- and a descriptor is the number of its keys.
use thunderden.Base.{
  ℕ, suc, ◌+◌, ◌≤◌, ◌≡◌, ◌↔◌, ◌⊎◌, refl, true, false, List, [], ◌∷◌, ◌++◌, some, ◌==◌,
  if◌then◌else◌, length, take, replicate, Bytes, codes, text_eq, leb→le, In, All,
}
use thunderden.Core.{Core}
use thunderden.Decimal.{from_chars, to_string, digits_of, span_digits, digits_value}
use thunderden.Keys.{
  Keys, hardened, verify_tag, public_at, derive, root_fingerprint, registration_tag,
}
use thunderden.Policy.{Position, Reference, KeyInfo, Policy}
use thunderden.Policy.KeyText.{
  read_key, read_xpub, read_origin, origin_loop, take_token, number, harden,
}
use thunderden.Policy.Template.{
  scan, initial, round, reference, plain, nest, branches, new_paths, has_index, has_path, expansion,
  with_reference, with_char,
}
use thunderden.Policy.Template.Progress.{scan_enough}
use thunderden.Policy.Build.{
  build, header, is_wrapper, read_keys, has_pubkey, has_key, same_keys, check_descriptor,
  check_descriptors, key_of, text_of,
}
use thunderden.Policy.Build.Accepted.{IsWellFormed, built_policy}
use thunderden.Policy.Owner.{authorized, owned_keys, owned_from, owns}
use thunderden.Policy.Owner.Authority.{IsRegistered, IsStandard, authorized_policy}
use thunderden.Policy.Positions.{Hint, positions}
use thunderden.Policy.Positions.Exact.{Leads, positions_exact}
use thunderden.Policy.Standard.{
  multisig_policy, multisig_text, multisig_name, multisig_account_path, is_multisig_key,
  check_origins,
}
use thunderden.Policy.Standard.Multisig.{IsMultisigKey, multisig_accepted}

-- The last byte of a key's text, which tells keys apart here.
abbrev last_byte : Bytes → ℕ
last_byte [] = 0
last_byte (c ∷ []) = c
last_byte (c ∷ (d ∷ s)) = last_byte (d ∷ s)

abbrev public_key : ℕ → Bytes
public_key c = (0x04 ∷ 0x88 ∷ 0xB2 ∷ 0x1E ∷ []) ++ (replicate 73 0 ++ (c ∷ []))

abbrev stars : Bytes → ℕ
stars [] = 0
stars (c ∷ s) = if c == b'*' then suc (stars s) else stars s

abbrev pub core : Core
core = record {
  ExtKey = Bytes;
  ExtPubKey = Bytes;
  derive = λ k i. some k;
  neuter = λ k. k;
  key_id = λ k. 0 ∷ 0 ∷ 0 ∷ 0 ∷ [];
  ext_eq = text_eq;
  depth = λ k. 1;
  child = λ k. hardened + 45;
  pubkey = λ k. k;
  is_fully_valid = λ k. true;
  encode = λ k. k;
  decode_with_version = λ k. k;
  encode_base58check = λ k. codes "xpub" ++ (last_byte k ∷ []);
  decode_base58check = λ s n. some (public_key (last_byte s));
  is_hex = λ s. true;
  parse_hex = λ s. 0 ∷ 0 ∷ 0 ∷ 0 ∷ [];
  hex_str = λ s. codes "00000000";
  sha256 = λ s. s;
  hmac_sha256 = λ k m. k;
  Descriptor = ℕ;
  Script = Bytes;
  Provider = ℕ;
  parse = λ s. (stars s ∷ stars s ∷ [], false);
  is_range = λ d. true;
  is_solvable = λ d. true;
  is_single_type = λ d. true;
  has_warnings = λ d. false;
  key_count = λ d. d;
  bare_keys = λ d. [];
  extended_keys = λ d. take d (public_key b'A' ∷ public_key b'B' ∷ []);
  expand = λ d i. some (d, [] ∷ []);
  descriptor_checksum = λ s. [];
  script_eq = text_eq;
  expand_private = λ d i keys p. p;
  has_private_keys = λ p. true;
}

scan_enough_example :
    scan (codes "xpubA" ∷ []) 12 (initial (codes "wpkh(@0/**)"))
    ≡ scan (codes "xpubA" ∷ []) 20 (initial (codes "wpkh(@0/**)"))
unfolding initial
scan_enough_example =
    scan_enough (codes "xpubA" ∷ []) 12 20 (initial (codes "wpkh(@0/**)")) (leb→le 11 12 refl)
      (leb→le 11 20 refl)

abbrev one_key : KeyInfo core
one_key = record {
  text = codes "xpubA";
  key = public_key b'A';
  fingerprint = 0 ∷ 0 ∷ 0 ∷ 0 ∷ [];
  origin = [];
  has_origin = false;
}

abbrev one_key_policy : Policy core
one_key_policy = record {
  name = codes "savings";
  text = codes "wpkh(@0/**)";
  public_text = codes "wpkh(xpubA/<0;1>/*)";
  keys = one_key ∷ [];
  references = record { key = 0; receive = 0; change = 1 } ∷ [];
  descriptors = 1 ∷ 1 ∷ [];
  mainnet = true;
}

built_policy_example :
    IsWellFormed core one_key_policy
    × (length one_key_policy.keys ≡ length (codes "xpubA" ∷ []))
    × (codes "savings" ≡ codes "savings")
    × (codes "wpkh(@0/**)" ≡ codes "wpkh(@0/**)")
unfolding build header is_wrapper read_keys has_pubkey read_key read_xpub read_origin origin_loop
    take_token number harden scan initial round reference plain nest branches new_paths has_index
    has_path expansion with_reference with_char has_key same_keys check_descriptor check_descriptors
    key_of text_of to_string digits_of span_digits digits_value from_chars
built_policy_example =
    built_policy core (codes "savings") (codes "wpkh(@0/**)") (codes "xpubA" ∷ []) true
      one_key_policy refl

abbrev multisig_text_example : Bytes
multisig_text_example = codes "sh(sortedmulti(1,@0/**,@1/**))"

abbrev origin_key : Bytes → ℕ → KeyInfo core
origin_key text c = record {
  text = text;
  key = public_key c;
  fingerprint = 0 ∷ 0 ∷ 0 ∷ 0 ∷ [];
  origin = (hardened + 45) ∷ [];
  has_origin = true;
}

abbrev two_keys : List Bytes
two_keys = codes "[00000000/45h]xpubA" ∷ codes "[00000000/45h]xpubB" ∷ []

abbrev pub multisig : Policy core
multisig = record {
  name = codes "Legacy multisig (1 of 2)";
  text = multisig_text_example;
  public_text = codes "sh(sortedmulti(1,[00000000/45h]xpubA/<0;1>/*,[00000000/45h]xpubB/<0;1>/*))";
  keys =
      origin_key (codes "[00000000/45h]xpubA") b'A'
      ∷ origin_key (codes "[00000000/45h]xpubB") b'B'
      ∷ [];
  references =
      record { key = 0; receive = 0; change = 1 }
      ∷ record { key = 1; receive = 0; change = 1 }
      ∷ [];
  descriptors = 2 ∷ 2 ∷ [];
  mainnet = true;
}

multisig_accepted_example :
    IsWellFormed core multisig
    × (0 ≤ 2)
    × (1 ≤ 1)
    × (1 ≤ 2)
    × (2 ≤ 2)
    × (multisig_text_example ≡ multisig_text 0 1 2)
    × All (IsMultisigKey core 0 true) multisig.keys
unfolding multisig_policy multisig_text multisig_name multisig_account_path is_multisig_key
    check_origins build header is_wrapper read_keys has_pubkey read_key read_xpub read_origin
    origin_loop take_token number harden scan initial round reference plain nest branches new_paths
    has_index has_path expansion with_reference with_char has_key same_keys check_descriptor
    check_descriptors key_of text_of to_string digits_of span_digits digits_value from_chars
multisig_accepted_example = multisig_accepted core 0 1 two_keys true multisig refl

abbrev tag : Bytes
tag = replicate 32 7

abbrev pub session : Keys core
session = record { root = public_key b'A'; registration_key = tag }

authorized_policy_example :
    (length tag ≡ 32)
    × (IsRegistered core multisig session tag ⊎ IsStandard core multisig session tag)
unfolding authorized owned_keys owned_from owns public_at derive root_fingerprint verify_tag
    registration_tag
authorized_policy_example = authorized_policy core multisig session tag refl

abbrev hint : Hint
hint = record { fingerprint = 0 ∷ 0 ∷ 0 ∷ 0 ∷ []; path = (hardened + 45) ∷ 1 ∷ 9 ∷ [] }

positions_exact_example :
    In {A = Position} (record { branch = 1; index = 9 }) (positions core multisig hint) ↔ (
      (ref : Reference) × In ref multisig.references
      × Leads core multisig hint (record { branch = 1; index = 9 }) ref)
positions_exact_example = positions_exact core multisig hint (record { branch = 1; index = 9 })
