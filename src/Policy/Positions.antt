-- ===== src/Policy/Positions.antt =====
-- src/policy.cpp, Positions, Script, PublicProvider and PrivateProvider: addresses of a policy.
pub mod Paths
pub mod Exact
use thunderden.Base.{
  ℕ, ◌+◌, ◌-◌, Bool, true, false, not, ◌&&◌, ◌||◌, List, [], ◌∷◌, ◌++◌, Option, none, some, leb,
  ltb, ◌==◌, if◌then◌else◌, length, get_elem?, Result, ok, err, ◌>>=◌, ◌>>◌, require, or_throw,
  text_eq, Bytes, is_empty,
}
use thunderden.Core.{Core}
use thunderden.Keys.{Keys, hardened, derive}
use thunderden.Policy.{Position, Reference, KeyInfo, Policy}
use thunderden.Policy.Owner.{owned_keys}

-- Core's KeyOriginInfo: a derivation hint.
pub record Hint : Type 0 where
  pub fingerprint : Bytes
  pub path : List ℕ

-- The last two steps of a path and those before them.
pub record Steps : Type 0 where
  pub account : List ℕ
  pub branch : ℕ
  pub index : ℕ

unfoldable pub last_steps : List ℕ → Option Steps
last_steps [] = none
last_steps (b ∷ []) = none
last_steps (b ∷ (i ∷ [])) = some (record { account = []; branch = b; index = i })
last_steps (a ∷ (b ∷ (i ∷ path))) = elim (last_steps (b ∷ (i ∷ path))) [
  | none ↦ none
  | some s ↦ some (record s { account = a ∷ s.account })
]

module _ (core : Core) where
  -- Does the hint name this reference's account?
  unfoldable pub names_account : Policy core → Hint → List ℕ → Reference → Bool
  names_account p hint account ref = elim (get_elem? p.keys ref.key) [
    | none ↦ false
    | some key ↦
        key.has_origin && (text_eq key.fingerprint hint.fingerprint && text_eq key.origin account)
  ]

  unfoldable pub ref_positions : Policy core → Hint → Steps → Reference → List Position
  ref_positions p hint s ref =
      if names_account p hint s.account ref
      then (if s.branch == ref.receive then record { branch = 0; index = s.index } ∷ [] else [])
        ++ (if s.branch == ref.change then record { branch = 1; index = s.index } ∷ [] else [])
      else []

  unfoldable pub all_positions : Policy core → Hint → Steps → List Reference → List Position
  all_positions p hint s [] = []
  all_positions p hint s (ref ∷ refs) = ref_positions p hint s ref ++ all_positions p hint s refs

  unfoldable pub positions : Policy core → Hint → List Position
  positions p hint = elim (last_steps hint.path) [
    | none ↦ []
    | some s ↦ if leb hardened s.index then [] else all_positions p hint s p.references
  ]

  unfoldable pub public_provider : Policy core → Position → Result (core.Provider × core.Script)
  public_provider p position = do
    require (ltb position.branch 2 && ltb position.index hardened) "Invalid address position"
    descriptor ← or_throw (get_elem? p.descriptors position.branch) "Descriptor expansion failed"
    (provider, scripts) ←
        or_throw (core.expand descriptor position.index) "Descriptor expansion failed"
    require (length scripts == 1) "Descriptor expansion failed"
    script ← or_throw (get_elem? scripts 0) "Descriptor expansion failed"
    ok (provider, script)

  unfoldable pub script : Policy core → ℕ → ℕ → Result core.Script
  script p branch index = do
    require (ltb branch 2 && ltb index hardened) "Invalid address position"
    descriptor ← or_throw (get_elem? p.descriptors branch) "Address derivation failed"
    (provider, scripts) ← or_throw (core.expand descriptor index) "Address derivation failed"
    require (length scripts == 1) "Address derivation failed"
    or_throw (get_elem? scripts 0) "Address derivation failed"

  -- The account keys by the public key that they stand behind.
  unfoldable pub accounts : Policy core → Keys core → List ℕ → Result (List (Bytes × core.ExtKey))
  accounts p session [] = ok []
  accounts p session (index ∷ owned) = do
    key ← or_throw (get_elem? p.keys index) "Unknown policy key"
    account ← derive core session key.origin
    rest ← accounts p session owned
    ok ((core.pubkey key.key, account) ∷ rest)

  -- Only the keys of this session's accounts reach the provider.
  unfoldable pub private_provider : Policy core → Position → Keys core → Result core.Provider
  unfolding accounts
  private_provider p position session = do
    (provider, script) ← public_provider p position
    owned ← owned_keys core p session
    keys ← accounts p session owned
    descriptor ← or_throw (get_elem? p.descriptors position.branch) "Descriptor expansion failed"
    let full = core.expand_private descriptor position.index keys provider
    require (core.has_private_keys full) "No private policy keys available"
    ok full
