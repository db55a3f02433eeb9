-- ===== src/Policy/Template.antt =====
-- src/policy.cpp, the loop of Policy::Policy over the policy's text: key references `@n/**` and
-- `@n/<a;b>/*` are expanded, and the characters around them are checked and copied.
pub mod Paths
pub mod Progress
use thunderden.Base.{
  ℕ, zero, suc, ◌+◌, ◌-◌, Bool, true, false, not, ◌&&◌, ◌||◌, List, [], ◌∷◌, ◌++◌, Option, none,
  some, leb, ltb, ◌==◌, if◌then◌else◌, length, take, drop, is_empty, Result, ok, err, ◌>>=◌, ◌>>◌,
  require, or_throw, codes, starts_with, contains, text_eq, Bytes, is_digit, is_lower, is_upper,
  get_elem?,
}
use thunderden.Decimal.{to_string}
use thunderden.Policy.{Reference}
use thunderden.Policy.KeyText.{number, take_token}

-- The variables of the loop. `before` is the text up to `pos`, last character first; `nesting` too.
pub record Scan : Type 0 where
  pub before : Bytes
  pub rest : Bytes
  pub expanded : Bytes
  pub nesting : Bytes
  pub seen : List ℕ
  pub paths : List (ℕ × ℕ)
  pub references : List Reference
  pub wrappers : ℕ

unfoldable pub has_index : ℕ → List ℕ → Bool
has_index i [] = false
has_index i (j ∷ l) = i == j || has_index i l

unfoldable pub has_path : ℕ → ℕ → List (ℕ × ℕ) → Bool
has_path k n [] = false
has_path k n ((j, m) ∷ l) = (k == j && n == m) || has_path k n l

-- The two branch numbers of a reference: `**`, or `<receive;change>/*`.
unfoldable pub branches : Bytes → Result (ℕ × ℕ × Bytes)
branches s = if starts_with s (codes "**") then ok (0, 1, drop 2 s) else (do
  s1 ← take_token (codes "<") s
  (receive, s2) ← number s1
  s3 ← take_token (codes ";") s2
  (change, s4) ← number s3
  s5 ← take_token (codes ">/*") s4
  ok (receive, change, s5))

-- The two `emplace` calls: neither path of the key was there.
unfoldable pub new_paths : ℕ → ℕ → ℕ → List (ℕ × ℕ) → Bool
new_paths key receive change paths =
    not (has_path key receive paths) && not (has_path key change ((key, receive) ∷ paths))

-- How many lower-case letters stand just before.
pub run_of_lower : Bytes → ℕ
run_of_lower [] = 0
run_of_lower (c ∷ s) = if is_lower c then suc (run_of_lower s) else 0

-- What the loop consumed of `s` when `rest` is left, put on `before`.
abbrev consumed : Bytes → Bytes → ℕ → Bytes
consumed before s zero = before
consumed before [] (suc n) = before
consumed before (c ∷ s) (suc n) = consumed (c ∷ before) s n

abbrev is_policy_char : ℕ → Bool
is_policy_char c = is_lower c || (is_upper c || (is_digit c || contains (codes "_():{},") c))

-- A `(` or `{` opens; the closing one must match the last that is open.
unfoldable pub nest : ℕ → Bytes → Result Bytes
nest c nesting =
    if c == b'(' || c == b'{'
    then (require (leb (length (c ∷ nesting)) 64) "Policy nesting is too deep" >> ok (c ∷ nesting))
    else if c == b')' || c == b'}'
    then elim nesting [
      | [] ↦ err "Unbalanced policy"
      | open' ∷ outer ↦
          require (open' == (if c == b')' then b'(' else b'{')) "Unbalanced policy" >> ok outer
    ]
    else ok nesting

-- A reference as Core reads it: the key's text and both branches.
unfoldable pub expansion : Bytes → ℕ → ℕ → Bytes
expansion text receive change =
    text ++ (codes "/<" ++ (to_string receive ++ (b';' ∷ (to_string change ++ codes ">/*"))))

-- The variables after a reference, with `rest` of `after` left.
unfoldable pub with_reference : Scan → Bytes → Bytes → Reference → Bytes → Scan
with_reference s after rest r expanded = record {
  before = consumed (b'@' ∷ s.before) after (length after - length rest);
  rest = rest;
  expanded = expanded;
  nesting = s.nesting;
  seen = if has_index r.key s.seen then s.seen else r.key ∷ s.seen;
  paths = (r.key, r.change) ∷ (r.key, r.receive) ∷ s.paths;
  references = s.references ++ (r ∷ []);
  wrappers = s.wrappers;
}

-- The variables after any other character.
unfoldable pub with_char : Scan → ℕ → Bytes → Bytes → ℕ → Scan
with_char s c after nesting wrappers = record s {
  before = c ∷ s.before;
  rest = after;
  expanded = s.expanded ++ (c ∷ []);
  nesting = nesting;
  wrappers = wrappers;
}

module _ (key_texts : List Bytes) where
  -- `@`: a reference. Keys must first appear in order, and no path may appear twice.
  unfoldable pub reference : Scan → Bytes → Result Scan
  reference s after = do
    (index, s1) ← number after
    text ← or_throw (get_elem? key_texts index) "Unknown policy key"
    require (has_index index s.seen || index == length s.seen) "Policy keys must appear in order"
    s2 ← take_token (codes "/") s1
    (receive, change, s3) ← branches s2
    require (new_paths index receive change s.paths) "Overlapping receive/change paths"
    require (leb (length s.references + 1) 128) "Too many key references"
    require (leb (length (s.expanded ++ expansion text receive change)) 65536)
        "Expanded policy is too large"
    ok (
        with_reference s after s3 (record { key = index; receive = receive; change = change })
          (s.expanded ++ expansion text receive change))

  -- Any other character.
  unfoldable pub plain : Scan → ℕ → Bytes → Result Scan
  plain s c after = do
    require (is_policy_char c) "Invalid policy character"
    nesting ← nest c s.nesting
    let wrappers = if c == b':' then s.wrappers + run_of_lower s.before else s.wrappers
    require (leb wrappers 64 || not (c == b':')) "Too many Miniscript wrappers"
    ok (with_char s c after nesting wrappers)

  unfoldable pub round : Scan → Bytes → Result Scan
  round s [] = ok s
  round s (c ∷ after) = if c == b'@' then reference s after else plain s c after

  -- The loop, with fuel: each round takes a character at least.
  unfoldable pub scan : ℕ → Scan → Result Scan
  scan zero s = require (is_empty s.rest) "The policy's text is longer than the fuel" >> ok s
  scan (suc fuel) s = elim (is_empty s.rest) [
    | true ↦ ok s
    | false ↦ round s s.rest >>= λ s'. scan fuel s'
  ]

unfoldable pub initial : Bytes → Scan
initial text = record {
  before = [];
  rest = text;
  expanded = [];
  nesting = [];
  seen = [];
  paths = [];
  references = [];
  wrappers = 0;
}
