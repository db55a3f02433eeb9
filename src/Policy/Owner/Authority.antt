-- ===== src/Policy/Owner/Authority.antt =====
-- What an authorized policy has proved of the session that uses it.
use thunderden.Base.{
  ℕ, ◌+◌, ◌-◌, ◌≤◌, ◌≡◌, ◌≢◌, refl, sym, ap, ◌∙◌, Bool, true, false, not, ◌&&◌, ◌||◌, ◌⊎◌, inl, inr,
  List, [], ◌∷◌, ◌==◌, ==_iff, length, is_empty, all, Result, ok, ◌>>=◌, Bytes, text_eq, text_eq→eq,
  and-true, In, arith, if◌then◌else◌, ok-injective, leb→le, is_empty→nil, >>=-eq-ok, All,
}
use mathlib.Core.Path.{subst}
use thunderden.Core.{Core}
use thunderden.Keys.{Keys, hardened, public_at, root_fingerprint, verify_tag, registration_tag}
use thunderden.Policy.{KeyInfo, Policy}
use thunderden.Policy.Owner.{
  id, owns, owned_from, owned_keys, default_purpose, coin, is_default_path, first_origin,
  is_default, authorized,
}

module _ (core : Core) where
  -- A key of the session: its origin names the seed, and its public key is derived from it.
  pub record IsOwned (session : Keys core) (key : KeyInfo core) : Type 0 where
    pub has_origin : key.has_origin ≡ true
    pub fingerprint : key.fingerprint ≡ root_fingerprint core session
    pub derived : core.ExtPubKey
    pub derives : public_at core session key.origin ≡ ok derived
    pub same : core.ext_eq derived key.key ≡ true

  pub record IsRegistered (p : Policy core) (session : Keys core) (tag : Bytes) : Type 0 where
    pub named : is_empty p.name ≡ false
    pub key : KeyInfo core
    pub member : In key p.keys
    pub owned : IsOwned session key
    pub hmac : registration_tag core session (id core p) ≡ tag

  pub record IsStandard (p : Policy core) (session : Keys core) (tag : Bytes) : Type 0 where
    pub unnamed : p.name ≡ []
    pub key : KeyInfo core
    pub only : p.keys ≡ key ∷ []
    pub owned : IsOwned session key
    pub account : ℕ
    pub bounded : account ≤ 100
    pub purpose : default_purpose p.text ≢ 0
    pub origin :
        key.origin
        ≡ (hardened + default_purpose p.text) ∷ coin p.mainnet ∷ (hardened + account) ∷ []
    pub zero_tag : All (λ b. b ≡ 0) tag

  false-true : false ≡ true → ⊥
  false-true e = cc

  -- A test that refuses and then another that answers.
  refused :
      (c : Bool) (r : Result Bool)
      → (if c then ok false else r) ≡ ok true
      → (c ≡ false) × (r ≡ ok true)
  refused true r h = absurd (false-true (ok-injective false true h))
  refused false r h = (refl, h)

  asked :
      (c : Bool) (r : Result Bool)
      → (if c then r else ok false) ≡ ok true
      → (c ≡ true) × (r ≡ ok true)
  asked true r h = (refl, h)
  asked false r h = absurd (false-true (ok-injective false true h))

  owns-IsOwned :
      (session : Keys core) (key : KeyInfo core)
      → owns core session key ≡ ok true
      → IsOwned session key
  unfolding owns
  owns-IsOwned session key h =
      let (here, r) =
        asked (key.has_origin && text_eq key.fingerprint (root_fingerprint core session)) _ h in
      let (pub_key, derives, e) = >>=-eq-ok (public_at core session key.origin) _ r in
      record {
        has_origin = (and-true _ _ here).0;
        fingerprint = text_eq→eq _ _ (and-true _ _ here).1;
        derived = pub_key;
        derives = derives;
        same = ok-injective _ _ e;
      }

  -- Where `OwnedKeys` returns an index, a key is owned.
  owned_from-first :
      (session : Keys core) (keys : List (KeyInfo core)) (index : ℕ) (owned : List ℕ)
      → owned_from core index session keys ≡ ok owned
      → is_empty owned ≡ false
      → (key : KeyInfo core) × In key keys × IsOwned session key
  unfolding owned_from
  owned_from-first session [] index owned h e =
      absurd (false-true (sym e ∙ ap is_empty (sym (ok-injective [] owned h))))
  owned_from-first session (key ∷ keys) index owned h e =
      let (mine, m, h1) = >>=-eq-ok (owns core session key) _ h in
      let (rest, r, h2) = >>=-eq-ok (owned_from core (index + 1) session keys) _ h1 in
      split mine rest m (owned_from-first session keys (index + 1) rest r) (ok-injective _ _ h2)
    where
      split :
          (mine : Bool) (rest : List ℕ)
          → owns core session key ≡ ok mine
          → (is_empty rest ≡ false → (k : KeyInfo core) × In k keys × IsOwned session k)
          → (if mine then index ∷ rest else rest) ≡ owned
          → (k : KeyInfo core) × In k (key ∷ keys) × IsOwned session k
      split true rest m r o = (key, inl refl, owns-IsOwned session key m)
      split false rest m r o = let (k, i, q) = r (ap is_empty o ∙ e) in (k, inr i, q)

  all_zero : (tag : Bytes) → all (λ c. c == 0) tag ≡ true → All (λ b. b ≡ 0) tag
  all_zero [] h = tt
  all_zero (b ∷ tag) h = ((==_iff b 0).0 (and-true _ _ h).0, all_zero tag (and-true _ _ h).1)

  single : (keys : List (KeyInfo core)) → length keys ≡ 1 → (key : KeyInfo core) × (keys ≡ key ∷ [])
  single [] e = let bad : ⊥ = omega (arith, e) in absurd bad
  single (k ∷ []) e = (k, refl)
  single (k ∷ (j ∷ keys)) e = let bad : ⊥ = omega (arith, e) in absurd bad

  default_origin :
      (purpose : ℕ) (mainnet : Bool) (path : List ℕ)
      → is_default_path purpose mainnet path ≡ true
      → (account : ℕ) × (account ≤ 100)
        × (path ≡ (hardened + purpose) ∷ coin mainnet ∷ (hardened + account) ∷ [])
  unfolding is_default_path
  default_origin purpose mainnet [] h = cc
  default_origin purpose mainnet (a ∷ []) h = cc
  default_origin purpose mainnet (a ∷ (b ∷ [])) h = cc
  default_origin purpose mainnet (a ∷ (b ∷ (c ∷ []))) h =
      let (ha, h1) = and-true _ _ h in
      let (hb, h2) = and-true _ _ h1 in
      let (low, high) = and-true _ _ h2 in
      let le : hardened ≤ c = leb→le _ _ low in
      let up : c ≤ hardened + 100 = leb→le _ _ high in
      let third : c ≡ hardened + (c - hardened) = omega arith in
      (
        c - hardened,
        omega arith,
        rw ((==_iff a (hardened + purpose)).0 ha, (==_iff b (coin mainnet)).0 hb)
            (ap (λ t. (hardened + purpose) ∷ coin mainnet ∷ t ∷ []) third),
      )
  default_origin purpose mainnet (a ∷ (b ∷ (c ∷ (d ∷ path)))) h = cc

  registered :
      (p : Policy core) (session : Keys core) (tag : Bytes)
      → is_empty p.name ≡ false
      → length tag ≡ 32
      → (owned_keys core p session >>= λ owned.
          ok (not (is_empty owned) && verify_tag core session (id core p) tag))
        ≡ ok true
      → IsRegistered p session tag
  unfolding owned_keys verify_tag
  registered p session tag named full h =
      let (owned, o, e) = >>=-eq-ok (owned_from core 0 session p.keys) _ h in
      let (some_owned, verified) = and-true _ _ (ok-injective _ _ e) in
      let (key, member, is_owned) =
        owned_from-first session p.keys 0 owned o (not_true _ some_owned) in
      record {
        named = named;
        key = key;
        member = member;
        owned = is_owned;
        hmac = text_eq→eq _ _ (then_true _ _ verified);
      }
    where
      not_true : (b : Bool) → not b ≡ true → b ≡ false
      not_true b k = ground arith

      then_true : (c b : Bool) → (if c then b else false) ≡ true → b ≡ true
      then_true true b k = k
      then_true false b k = cc

  standard :
      (p : Policy core) (session : Keys core) (tag : Bytes)
      → is_empty p.name ≡ true
      → is_default core p session ≡ ok true
      → All (λ b. b ≡ 0) tag
      → IsStandard p session tag
  unfolding is_default owned_keys first_origin
  standard p session tag empty h zeros =
      let (shape, h1) = refused (not (is_empty p.name) || not (length p.keys == 1)) _ h in
      let (owned, o, h2) = >>=-eq-ok (owned_from core 0 session p.keys) _ h1 in
      let (count, h3) = and-true (length owned == 1) _ (ok-injective _ _ h2) in
      let (purpose, path) = and-true _ _ h3 in
      let one : length p.keys ≡ 1 = ground arith in
      let (only, is_only) = single p.keys one in
      let (key, member, is_owned) =
        owned_from-first session p.keys 0 owned o (one_key owned count) in
      let same = sole key only (subst (In key) is_only member) in
      let (account, bound, origin) = default_origin _ _ _ (
        subst
          (λ ks. is_default_path (default_purpose p.text) p.mainnet (first_origin core ks) ≡ true)
          is_only path) in
      record {
        unnamed = is_empty→nil p.name empty;
        key = only;
        only = is_only;
        owned = subst (IsOwned session) same is_owned;
        account = account;
        bounded = bound;
        purpose = ground arith;
        origin = origin;
        zero_tag = zeros;
      }
    where
      one_key : (owned : List ℕ) → (length owned == 1) ≡ true → is_empty owned ≡ false
      one_key [] e = cc
      one_key (i ∷ owned) e = refl

      sole : (key only : KeyInfo core) → In key (only ∷ []) → key ≡ only
      sole key only (inl e) = e
      sole key only (inr i) = absurd i

  -- A policy is authorized with a tag only if the tag has 32 bytes and either the policy is named, one of
  -- its keys is derived from the session, and the tag is the session's HMAC of the policy's ID; or it is
  -- unnamed, its one key is the session's account 0 to 100 of a default type and network, and the tag is
  -- zero.
  pub authorized_policy :
      (p : Policy core) (session : Keys core) (tag : Bytes)
      → authorized core p session tag ≡ ok true
      → (length tag ≡ 32) × (IsRegistered p session tag ⊎ IsStandard p session tag)
  unfolding authorized
  authorized_policy p session tag h =
      let (full, k) = refused (not (length tag == 32)) _ h in
      let size : length tag ≡ 32 = ground arith in (size, branch (is_empty p.name) refl k size)
    where
      branch :
          (c : Bool)
          → is_empty p.name ≡ c
          → (if c
              then (is_default core p session >>= λ standard.
                  ok (standard && all (λ c. c == 0) tag))
              else (owned_keys core p session >>= λ owned.
                  ok (not (is_empty owned) && verify_tag core session (id core p) tag)))
            ≡ ok true
          → length tag ≡ 32
          → IsRegistered p session tag ⊎ IsStandard p session tag
      branch true e k size =
          let (b, d, k1) = >>=-eq-ok (is_default core p session) _ k in
          let (is_true, zeros) = and-true _ _ (ok-injective _ _ k1) in
          inr (standard p session tag e (d ∙ ap ok is_true) (all_zero tag zeros))
      branch false e k size = inl (registered p session tag e size k)
