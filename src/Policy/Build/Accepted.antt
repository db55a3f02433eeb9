-- ===== src/Policy/Build/Accepted.antt =====
-- What a policy that the constructor `Policy::Policy` returns is known to satisfy.
use thunderden.Base.{
  ℕ, suc, ◌+◌, ◌≤◌, ◌<◌, ◌≡◌, refl, sym, ap, ◌∙◌, Bool, true, false, not, ◌&&◌, ◌||◌, List, [], ◌∷◌,
  ◌++◌, map, ltb, leb, ◌==◌, ==_iff, length, is_empty, all, Result, ok, Bytes, All, length-append,
  leb→le, ltb→lt, and-true, starts_with, codes, append-nil, append_assoc, Ensures-last, Ensures-seq,
  Ensures, returns, throws, Ensures-bind, Ensures-require, Ensures-value, arith,
}
use mathlib.Core.Path.{subst}
use thunderden.Core.{Core}
use thunderden.Policy.{Reference, KeyInfo, Policy}
use thunderden.Policy.KeyText.{read_key}
use thunderden.Policy.Template.{scan, initial}
use thunderden.Policy.Template.Paths.{paths_of, Distinct, initial-Inv, scan-Inv}
use thunderden.Policy.Build.{
  header, has_pubkey, read_keys, first_is, last_is, occurs, is_wrapper, check_descriptor,
  check_descriptors, same_keys, is_name_char, build, text_of, key_of,
}

length-map : {A B : Type 0} (f : A → B) (l : List A) → length (map f l) ≡ length l
length-map f [] = refl
length-map f (x ∷ l) = ap suc (length-map f l)

module _ (core : Core) where
  -- A descriptor of Core's that passed: ranged, solvable, without warnings, over the policy's keys alone.
  pub record IsChecked (references : ℕ) (keys : List (KeyInfo core)) (d : core.Descriptor)
      : Type 0 where
    pub sound : core.is_range d && (core.is_solvable d && core.is_single_type d) ≡ true
    pub quiet : core.has_warnings d ≡ false
    pub count : core.key_count d ≡ references
    pub bare : is_empty (core.bare_keys d) ≡ true
    pub same : same_keys core (core.extended_keys d) (map (key_of core) keys) ≡ true

  -- Public keys of a policy, each new among those before it.
  abbrev pub Fresh : List (KeyInfo core) → List (KeyInfo core) → Type 0
  Fresh done [] = Unit {0}
  Fresh done (k ∷ keys) =
      (has_pubkey core (core.pubkey k.key) done ≡ false) × Fresh (done ++ (k ∷ [])) keys

  pub record IsWellFormed (p : Policy core) : Type 0 where
    pub name_length : length p.name ≤ 64
    pub name_chars : all is_name_char p.name ≡ true
    pub text_length : length p.text ≤ 8192
    pub some_key : 1 ≤ length p.keys
    pub few_keys : length p.keys ≤ 32
    pub expanded : length p.public_text ≤ 65536
    pub fresh : Fresh [] p.keys
    pub known : All (λ (r : Reference). r.key < length p.keys) p.references
    pub distinct : Distinct (paths_of p.references)
    pub few : length p.references ≤ 128
    pub two : length p.descriptors ≡ 2
    pub checked : All (IsChecked (length p.references) p.keys) p.descriptors

  is_false : (b : Bool) → not b ≡ true → b ≡ false
  is_false b h = ground arith

  Ensures-map :
      {A : Type 0} {P Q : A → Type 0} (r : Result A)
      → Ensures P r
      → ((a : A) → P a → Q a)
      → Ensures Q r
  Ensures-map r (returns {a = a} p) f = returns {a = a} (f a p)
  Ensures-map r throws f = throws

  record IsHeader (name text : Bytes) (key_count : ℕ) : Type 0 where
    name_length : length name ≤ 64
    name_chars : all is_name_char name ≡ true
    text_length : length text ≤ 8192
    some_key : 1 ≤ key_count
    few_keys : key_count ≤ 32

  header-IsHeader :
      (name text : Bytes) (n : ℕ)
      → Ensures (λ (u : Unit {0}). IsHeader name text n) (header name text n)
  unfolding header
  header-IsHeader name text n =
      Ensures-require (leb (length name) 64 && all is_name_char name) _ λ a.
        Ensures-require (is_empty name || (not (first_is b' ' name) && not (last_is b' ' name))) _
          λ b. Ensures-require (not (is_empty text) && leb (length text) 8192) _ λ c.
            Ensures-require (ltb 0 n && leb n 32) _ λ d. Ensures-require (is_wrapper text) _ λ e.
              Ensures-require (not (starts_with text (codes "sh(pk("))) _ λ f.
                Ensures-last (not (occurs (codes "musig(") text)) _ λ g. record {
                  name_length = leb→le _ _ (and-true _ _ a).0;
                  name_chars = (and-true _ _ a).1;
                  text_length = leb→le _ _ (and-true _ _ c).1;
                  some_key = ltb→lt 0 n (and-true _ _ d).0;
                  few_keys = leb→le _ _ (and-true _ _ d).1;
                }

  read_keys-length :
      (mainnet : Bool) (texts : List Bytes) (done : List (KeyInfo core))
      → Ensures
          (λ keys. length keys ≡ length done + length texts)
          (read_keys core done texts mainnet)
  unfolding read_keys
  read_keys-length mainnet [] done = returns {a = done} (omega arith)
  read_keys-length mainnet (t ∷ texts) done = Ensures-bind (read_key core t mainnet) λ info _.
      Ensures-require (not (has_pubkey core (core.pubkey info.key) done)) _ λ _.
        Ensures-map (read_keys core (done ++ (info ∷ [])) texts mainnet)
          (read_keys-length mainnet texts (done ++ (info ∷ [])))
          λ keys e. omega (arith, e, length-append done (info ∷ []))

  -- The keys behind `done` are each new when they are read.
  read_keys-Fresh :
      (mainnet : Bool) (texts : List Bytes) (done : List (KeyInfo core))
      → Ensures
          (λ keys. (more : List (KeyInfo core)) × (keys ≡ done ++ more) × Fresh done more)
          (read_keys core done texts mainnet)
  unfolding read_keys
  read_keys-Fresh mainnet [] done = returns {a = done} ([], sym (append-nil done), tt)
  read_keys-Fresh mainnet (t ∷ texts) done = Ensures-bind (read_key core t mainnet) λ info _.
      Ensures-require (not (has_pubkey core (core.pubkey info.key) done)) _ λ new.
        Ensures-map (read_keys core (done ++ (info ∷ [])) texts mainnet)
          (read_keys-Fresh mainnet texts (done ++ (info ∷ [])))
          λ keys (more, e, f).
            (info ∷ more, e ∙ append_assoc done (info ∷ []) more, (is_false _ new, f))

  check_descriptor-IsChecked :
      (n : ℕ) (keys : List (KeyInfo core)) (d : core.Descriptor)
      → Ensures (λ (u : Unit {0}). IsChecked n keys d) (check_descriptor core n keys d)
  unfolding check_descriptor
  check_descriptor-IsChecked n keys d =
      Ensures-require (core.is_range d && (core.is_solvable d && core.is_single_type d)) _ λ a.
        Ensures-require (not (core.has_warnings d)) _ λ b.
          Ensures-require (core.key_count d == n) _ λ c.
            Ensures-last
              (is_empty (core.bare_keys d)
                && same_keys core (core.extended_keys d) (map (key_of core) keys))
              _
              λ e. record {
                sound = a;
                quiet = is_false _ b;
                count = (==_iff _ _).0 c;
                bare = (and-true _ _ e).0;
                same = (and-true _ _ e).1;
              }

  check_descriptors-All :
      (n : ℕ) (keys : List (KeyInfo core)) (ds : List core.Descriptor)
      → Ensures (λ (u : Unit {0}). All (IsChecked n keys) ds) (check_descriptors core n keys ds)
  unfolding check_descriptors
  check_descriptors-All n keys [] = returns {a = tt} tt
  check_descriptors-All n keys (d ∷ ds) = Ensures-seq (check_descriptor core n keys d) λ one.
      Ensures-map (check_descriptors core n keys ds) (check_descriptors-All n keys ds)
        λ u rest. (Ensures-value (check_descriptor-IsChecked n keys d) tt one, rest)

  pub build-Ensures :
      (name text : Bytes) (key_texts : List Bytes) (mainnet : Bool)
      → Ensures
          (λ (p : Policy core).
            IsWellFormed p × (length p.keys ≡ length key_texts) × (p.name ≡ name) × (p.text ≡ text))
          (build core name text key_texts mainnet)
  unfolding build
  build-Ensures name text key_texts mainnet = Ensures-seq (header name text (length key_texts)) λ h.
      Ensures-bind (read_keys core [] key_texts mainnet) λ keys read.
        Ensures-bind (scan (map (text_of core) keys) (length text) (initial text)) λ s scanned.
          Ensures-require (is_empty s.nesting && length s.seen == length keys) _ λ _.
            Ensures-require (leb (length s.expanded) 65536) _ λ short.
              let descriptors = (core.parse s.expanded).0 in
              Ensures-require (length descriptors == 2 && not (core.parse s.expanded).1) _ λ two.
                Ensures-seq (check_descriptors core (length s.references) keys descriptors)
                  λ checked.
                    let head = Ensures-value (header-IsHeader name text (length key_texts)) tt h in
                    let count : length keys ≡ length key_texts =
                      omega
                        (arith, Ensures-value (read_keys-length mainnet key_texts []) keys read) in
                    let (more, all_new, fresh) =
                      Ensures-value (read_keys-Fresh mainnet key_texts []) keys read in
                    let v =
                      Ensures-value
                        (scan-Inv (map (text_of core) keys) (length text) (initial text)
                          (initial-Inv (length (map (text_of core) keys)) text))
                        s scanned in
                    returns (
                      record {
                        name_length = head.name_length;
                        name_chars = head.name_chars;
                        text_length = head.text_length;
                        some_key = omega (arith, count, head.some_key);
                        few_keys = omega (arith, count, head.few_keys);
                        expanded = leb→le _ _ short;
                        fresh = subst (Fresh []) (sym all_new) fresh;
                        known =
                            subst (λ n. All (λ (r : Reference). r.key < n) s.references)
                              (length-map (text_of core) keys) v.known;
                        distinct = v.distinct;
                        few = v.few;
                        two = (==_iff _ _).0 (and-true _ _ two).0;
                        checked =
                            Ensures-value
                              (check_descriptors-All (length s.references) keys descriptors) tt
                              checked;
                      },
                      count,
                      refl,
                      refl,
                    )

  -- A policy that the constructor returns keeps its name, its text and one key for each key text, with
  -- distinct public keys; has 1 to 32 keys; at most 128 references, that name its keys, with no key
  -- path used twice; and has two descriptors, each checked against exactly those keys.
  pub built_policy :
      (name text : Bytes) (key_texts : List Bytes) (mainnet : Bool) (p : Policy core)
      → build core name text key_texts mainnet ≡ ok p
      → IsWellFormed p × (length p.keys ≡ length key_texts) × (p.name ≡ name) × (p.text ≡ text)
  built_policy name text key_texts mainnet p =
      Ensures-value (build-Ensures name text key_texts mainnet) p
