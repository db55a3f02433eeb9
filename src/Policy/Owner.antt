-- ===== src/Policy/Owner.antt =====
-- src/policy.cpp, ID, OwnedKeys, IsDefault and Authorized: which seed a policy belongs to.
pub mod Authority
use thunderden.Base.{
  ℕ, zero, suc, ◌+◌, ◌-◌, ◌*◌, ◌/◌, ◌%◌, Bool, true, false, not, ◌&&◌, ◌||◌, List, [], ◌∷◌, ◌++◌,
  map, leb, ltb, ◌==◌, if◌then◌else◌, length, take, drop, all, is_empty, Result, ok, err, ◌>>=◌,
  codes, text_eq, Bytes,
}
use thunderden.Core.{Core}
use thunderden.Keys.{Keys, hardened, public_at, root_fingerprint, verify_tag}
use thunderden.Policy.{KeyInfo, Policy}

-- The largest power of two that is at most `n`, by doubling: std::bit_floor of a positive count.
bit_floor_from : ℕ → ℕ → ℕ → ℕ
bit_floor_from zero p n = p
bit_floor_from (suc fuel) p n = elim (leb (p * 2) n) [
  | true ↦ bit_floor_from fuel (p * 2) n
  | false ↦ p
]

bit_floor : ℕ → ℕ
unfolding bit_floor_from
bit_floor n = bit_floor_from n 1 n

-- WriteCompactSize of a count below 2^16, as all here are.
abbrev compact_size : ℕ → Bytes
compact_size n = if ltb n 253 then n ∷ [] else 253 ∷ (n % 256) ∷ (n / 256) ∷ []

-- The purpose of a default text, 0 for any other.
pub default_purpose : Bytes → ℕ
default_purpose text =
    if text_eq text (codes "pkh(@0/**)")
    then 44
    else if text_eq text (codes "sh(wpkh(@0/**))")
    then 49
    else if text_eq text (codes "wpkh(@0/**)")
    then 84
    else if text_eq text (codes "tr(@0/**)")
    then 86
    else 0

pub coin : Bool → ℕ
coin mainnet = if mainnet then hardened else hardened + 1

pub is_default_path : ℕ → Bool → List ℕ → Bool
is_default_path purpose mainnet (a ∷ (b ∷ (c ∷ []))) =
    a == hardened + purpose && (b == coin mainnet && (leb hardened c && leb c (hardened + 100)))
is_default_path purpose mainnet path = false

module _ (core : Core) where
  -- The recursion of `Merkle`, with fuel for the number of keys: both parts are shorter.
  merkle_fuel : ℕ → List (KeyInfo core) → Bytes
  merkle_fuel zero keys = []
  merkle_fuel (suc fuel) [] = []
  merkle_fuel (suc fuel) (k ∷ []) = core.sha256 (0 ∷ k.text)
  merkle_fuel (suc fuel) (k ∷ (j ∷ keys)) =
      let split = bit_floor (length (j ∷ keys)) in
      core.sha256 (
        1
        ∷ (merkle_fuel fuel (take split (k ∷ (j ∷ keys)))
            ++ merkle_fuel fuel (drop split (k ∷ (j ∷ keys)))))

  pub merkle : List (KeyInfo core) → Bytes
  unfolding merkle_fuel bit_floor
  merkle keys = merkle_fuel (length keys) keys

  unfoldable pub id : Policy core → Bytes
  id p = core.sha256 (
      2
      ∷ (length p.name
          ∷ (p.name
              ++ (compact_size (length p.text)
                  ++ (core.sha256 p.text ++ (compact_size (length p.keys) ++ merkle p.keys))))))

  -- `session.PublicAt(key.origin) == key.key`. A failed derivation throws, and so does `OwnedKeys`.
  unfoldable pub owns : Keys core → KeyInfo core → Result Bool
  owns session key =
      if key.has_origin && text_eq key.fingerprint (root_fingerprint core session)
      then (public_at core session key.origin >>= λ pub_key. ok (core.ext_eq pub_key key.key))
      else ok false

  unfoldable pub owned_from : ℕ → Keys core → List (KeyInfo core) → Result (List ℕ)
  owned_from index session [] = ok []
  owned_from index session (key ∷ keys) = do
    mine ← owns session key
    rest ← owned_from (index + 1) session keys
    ok (if mine then index ∷ rest else rest)

  unfoldable pub owned_keys : Policy core → Keys core → Result (List ℕ)
  owned_keys p session = owned_from 0 session p.keys

  pub first_origin : List (KeyInfo core) → List ℕ
  first_origin [] = []
  first_origin (k ∷ keys) = k.origin

  unfoldable pub is_default : Policy core → Keys core → Result Bool
  unfolding first_origin
  is_default p session =
      if not (is_empty p.name) || not (length p.keys == 1)
      then ok false
      else (owned_keys p session >>= λ owned. ok (
          length owned == 1
          && (not (default_purpose p.text == 0)
              && is_default_path (default_purpose p.text) p.mainnet (first_origin p.keys))))

  unfoldable pub authorized : Policy core → Keys core → Bytes → Result Bool
  authorized p session tag =
      if not (length tag == 32)
      then ok false
      else if is_empty p.name
      then (is_default p session >>= λ standard. ok (standard && all (λ c. c == 0) tag))
      else (owned_keys p session >>= λ owned.
          ok (not (is_empty owned) && verify_tag core session (id p) tag))
