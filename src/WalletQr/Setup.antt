-- ===== src/WalletQr/Setup.antt =====
-- src/wallet_qr.cpp, Trim, KeyCount and ReadMultisigText: a wallet setup as lines of text. The loop that takes a
-- line off the text each time is a recursion on the lines.
use thunderden.Base.{
  ℕ, ◌^◌, Bool, true, false, not, ◌&&◌, ◌||◌, List, [], ◌∷◌, ◌++◌, Option, none, some, leb, ltb,
  ◌==◌, if◌then◌else◌, length, drop, map, all, is_empty, Result, ok, ◌>>=◌, ◌>>◌, require, or_throw,
  codes, text_eq, starts_with, split_at, Bytes,
}
use thunderden.Core.{Core}
use thunderden.Decimal.{from_chars}
use thunderden.Keys.{path_text}
use thunderden.Policy.{Policy}
use thunderden.Policy.Standard.{multisig_account_path, multisig_policy}
use thunderden.WalletQr.{HdKeys}

abbrev is_blank : ℕ → Bool
is_blank c = c == b' ' || (c == 9 || c == 13)

abbrev trim_left : Bytes → Bytes
trim_left [] = []
trim_left (c ∷ s) = if is_blank c then trim_left s else c ∷ s

abbrev trim_right : Bytes → Bytes
trim_right [] = []
trim_right (c ∷ s) = elim (trim_right s) [
  | [] ↦ if is_blank c then [] else c ∷ []
  | d ∷ t ↦ c ∷ (d ∷ t)
]

unfoldable pub trim : Bytes → Bytes
trim text = trim_right (trim_left text)

-- The lines of a text; nothing stands behind a last newline.
unfoldable pub lines : Bytes → List Bytes
lines [] = []
lines (c ∷ s) =
    if c == 10 then [] ∷ lines s else elim (lines s) [ [] ↦ (c ∷ []) ∷ [] | l ∷ ls ↦ (c ∷ l) ∷ ls ]

unfoldable pub key_count : Bytes → Result ℕ
key_count text = do
  (value, rest) ← or_throw (from_chars (2 ^ 32) text) "Invalid multisig threshold or key count"
  require (is_empty rest && (ltb 0 value && leb value 20)) "Invalid multisig threshold or key count"
  ok value

abbrev pub is_setup_char : ℕ → Bool
is_setup_char c = (leb 32 c && leb c 126) || (c == 10 || (c == 13 || c == 9))

-- `find(" of ")` with what stands before and behind it.
unfoldable pub split_of : Bytes → Option (Bytes × Bytes)
split_of [] = none
split_of (c ∷ s) =
    if starts_with (c ∷ s) (codes " of ")
    then some ([], drop 4 (c ∷ s))
    else elim (split_of s) [ none ↦ none | some (a, b) ↦ some (c ∷ a, b) ]

abbrev unprime : ℕ → ℕ
unprime c = if c == b'h' then 39 else c

-- The variables of the loop.
pub record Setup : Type 0 where
  pub threshold : ℕ
  pub count : ℕ
  pub name : Bool
  pub format : Bool
  pub origin : List ℕ
  pub keys : List Bytes

module _ (core : Core) (hd : HdKeys core) (mainnet : Bool) where
  unfoldable pub name_line : Setup → Bytes → Result Setup
  name_line s value = do
    require (not s.name && leb (length value) 256) "Invalid or repeated wallet name"
    ok (record s { name = true })

  unfoldable pub policy_line : Setup → Bytes → Result Setup
  policy_line s value = do
    require (s.count == 0) "Repeated multisig policy"
    (before, after) ← or_throw (split_of value) "Expected a multisig M of N policy"
    threshold ← key_count before
    count ← key_count after
    ok (record s { threshold = threshold; count = count })

  unfoldable pub format_line : Setup → Bytes → Result Setup
  format_line s value = do
    require (not s.format && text_eq value (codes "P2WSH")) "Expected one P2WSH wallet format"
    ok (record s { format = true })

  unfoldable pub derivation_line : Setup → Bytes → Result Setup
  derivation_line s value = do
    require (is_empty s.origin) "Missing key after derivation"
    require (starts_with value (codes "m/"))
        "Expected a standard native SegWit multisig account path"
    path ←
        or_throw (hd.parse_hd_keypath (map unprime value))
          "Expected a standard native SegWit multisig account path"
    require (multisig_account_path path 2 mainnet)
        "Expected a standard native SegWit multisig account path"
    ok (record s { origin = path })

  unfoldable pub key_line : Setup → Bytes → Bytes → Result Setup
  key_line s name value = do
    require (length name == 8 && core.is_hex name)
        "Unknown wallet setup field or invalid fingerprint"
    require (not (is_empty s.origin) && ltb (length s.keys) 20)
        "Missing derivation or too many wallet keys"
    let text =
        codes "["
        ++ (core.hex_str (core.parse_hex name)
            ++ (drop 1 (path_text s.origin) ++ (codes "]" ++ value)))
    ok (record s { keys = s.keys ++ (text ∷ []); origin = [] })

  unfoldable pub setup_field : Setup → Bytes → Bytes → Result Setup
  setup_field s name value =
      if text_eq name (codes "Name")
      then name_line s value
      else if text_eq name (codes "Policy")
      then policy_line s value
      else if text_eq name (codes "Format")
      then format_line s value
      else if text_eq name (codes "Derivation")
      then derivation_line s value
      else key_line s name value

  -- A line that is blank or a comment is passed over.
  unfoldable pub setup_line : Setup → Bytes → Result Setup
  setup_line s line = do
    require (leb (length line) 512) "Wallet setup line is too long"
    let text = trim line
    if is_empty text || starts_with text (codes "#") then ok s else (do
      (name, value) ← or_throw (split_at b':' text) "Expected a wallet setup field"
      setup_field s (trim name) (trim value))

  unfoldable pub setup_lines : Setup → List Bytes → Result Setup
  setup_lines s [] = ok s
  setup_lines s (line ∷ rest) = do s' ← setup_line s line; setup_lines s' rest

  abbrev pub no_setup : Setup
  no_setup = record {
    threshold = 0;
    count = 0;
    name = false;
    format = false;
    origin = [];
    keys = [];
  }

  unfoldable pub read_multisig_text : Bytes → Result (Policy core)
  read_multisig_text text = do
    require (all is_setup_char text) "Invalid wallet setup text character"
    s ← setup_lines no_setup (lines text)
    require (not (s.count == 0) && (s.format && (is_empty s.origin && length s.keys == s.count)))
        "Incomplete multisig wallet setup"
    multisig_policy core 2 s.threshold s.keys mainnet
