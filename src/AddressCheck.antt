-- ===== src/AddressCheck.antt =====
-- src/address_check.h and src/address_check.cpp: the address in a QR code, and the search for its
-- position in a wallet. Decoding and validating an address is Bitcoin Core's.
pub mod Search
pub mod Uri
pub mod Tests
use thunderden.Base.{
  ℕ, zero, suc, ◌+◌, ◌-◌, Bool, true, false, not, ◌&&◌, ◌||◌, List, [], ◌∷◌, map, Option, none,
  some, leb, ltb, ◌==◌, if◌then◌else◌, length, take, drop, all, is_empty, Result, ok, err, ◌>>=◌,
  ◌>>◌, require, or_throw, codes, text_eq, starts_with, contains, is_digit, is_lower, is_upper,
  to_lower, split_at, Bytes,
}
use thunderden.Core.{Core}
use thunderden.Policy.{Position, Policy}
use thunderden.Policy.Positions.{script}
use thunderden.Transport.{max_address_qr}

abbrev pub address_search_window : ℕ
address_search_window = 1000

abbrev pub address_index_end : ℕ
address_index_end = 0x8000_0000

-- The alternatives of Core's CTxDestination that the program tells apart.
pub data Destination : Type 0 where
  pk_hash : Bytes → Destination
  script_hash : Bytes → Destination
  witness_key_hash : Bytes → Destination
  witness_script_hash : Bytes → Destination
  taproot : Bytes → Destination
  other : Bytes → Destination

pub address_purpose : Destination → Result ℕ
address_purpose (pk_hash h) = ok 44
address_purpose (script_hash h) = ok 49
address_purpose (witness_key_hash h) = ok 84
address_purpose (taproot h) = ok 86
address_purpose (witness_script_hash h) = ok 0
address_purpose (other h) = err "This address type is not supported."

abbrev pub is_address_char : ℕ → Bool
is_address_char c = leb 33 c && (leb c 126 && not (c == b'#'))

abbrev is_unreserved : ℕ → Bool
is_unreserved c =
    is_lower c
    || (is_upper c || (is_digit c || (c == b'-' || (c == b'.' || (c == b'_' || c == b'~')))))

-- One `name=value` item of a payment URI's query.
pub check_item : Bytes → Result (Unit {0})
check_item item = do
  (name, value) ← or_throw (split_at b'=' item) "Unsupported payment URI parameter."
  require (not (is_empty name) && all is_unreserved name) "Unsupported payment URI parameter."
  require (not (starts_with name (codes "req-")))
      "This payment URI has unsupported required information."

-- The loop over the query, with fuel: each round takes a separator.
pub check_query : ℕ → Bytes → Result (Unit {0})
unfolding check_item
check_query zero query = ok tt
check_query (suc n) query = if is_empty query then ok tt else elim (split_at b'&' query) [
  | none ↦ check_item query
  | some (item, rest) ↦ check_item item >> check_query n rest
]

-- The address in the text: what stands before the query of a `bitcoin:` URI, or all of it.
pub address_text : Bytes → Result Bytes
unfolding check_query
address_text text =
    if text_eq (map to_lower (take 8 text)) (codes "bitcoin:")
    then elim (split_at b'?' (drop 8 text)) [
      | none ↦ ok (drop 8 text)
      | some (address, query) ↦ check_query (length query) query >> ok address
    ]
    else ok text

-- `decode` is DecodeDestination of the selected network with IsValidDestination: `none` if invalid.
pub read_address : (Bytes → Option Destination) → Bytes → Result Destination
unfolding address_text address_purpose
read_address decode text = do
  require (not (is_empty text) && (leb (length text) max_address_qr && all is_address_char text))
      "This isn't a supported Bitcoin address QR."
  address ← address_text text
  destination ←
      or_throw (decode address) "This isn't a valid Bitcoin address for the selected network."
  purpose ← address_purpose destination
  ok destination

-- How one comparison of the search ends: the caller stopped it, the script is there, or it is not.
pub data Look (S : Type 0) : Type 0 where
  stopped : Look S
  found : Look S
  missed : S → Look S

module _ (core : Core) (p : Policy core) (target : core.Script) where
  pub has_script : ℕ → ℕ → Result Bool
  has_script branch index = script core p branch index >>= λ s. ok (core.script_eq s target)

  module _ (S : Type 0) (proceed : S → ℕ → Result (Bool × S)) where
    pub look : S → ℕ → ℕ → Result (Look S)
    look s branch index = do
      (more, s') ← proceed s index
      if more
          then (has_script branch index >>= λ here. ok (if here then found else missed s'))
          else ok stopped

    -- The loop, on the number of indices left. `next` is returned beside what the call returned or
    -- threw, as the code's reference parameter is read after either.
    pub search : ℕ → S → ℕ → ℕ × Result (Option Position)
    search zero s next = (next, ok none)
    search (suc n) s next = elim (look s 0 next) [
      | err e ↦ (next, err e)
      | ok stopped ↦ (next, ok none)
      | ok found ↦ (next, ok (some (record { branch = 0; index = next })))
      | ok (missed s1) ↦ elim (look s1 1 next) [
        | err e ↦ (next, err e)
        | ok stopped ↦ (next, ok none)
        | ok found ↦ (next, ok (some (record { branch = 1; index = next })))
        | ok (missed s2) ↦ search n s2 (next + 1)
      ]
    ]

  -- The callback may be missing, which is refused like a bad range.
  unfoldable pub find_address :
      (S : Type 0) → Option (S → ℕ → Result (Bool × S)) → S → ℕ → ℕ → ℕ × Result (Option Position)
  find_address S none s next end = (next, err "Invalid address search range")
  find_address S (some proceed) s next end =
      if leb next end && (leb end address_index_end && leb (end - next) address_search_window)
      then search S proceed (end - next) s next
      else (next, err "Invalid address search range")
