-- ===== src/Policy/Template/Paths.antt =====
-- src/policy.cpp: the key paths that the loop over a policy's text collects, and its bounds.
use thunderden.Base.{
  ℕ, zero, suc, ◌+◌, ◌≤◌, ◌<◌, ◌≡◌, refl, sym, ap, ◌∙◌, Bool, true, false, not, ◌||◌, List, [], ◌∷◌,
  ◌++◌, leb, ◌==◌, if◌then◌else◌, length, is_empty, ok, err, or_throw, get_elem?, Bytes, All,
  All-append, codes, and-true, Ensures, returns, throws, Ensures-bind, Ensures-require, Ensures-if,
  Ensures-value, arith, inl, inr, Bool-cases, leb→le, require, ◌>>◌, length-append, not,
}
use mathlib.Core.Path.{subst}
use Prim.Native.String.{String}
use thunderden.Policy.{Reference}
use thunderden.Policy.KeyText.{number, take_token}
use thunderden.Policy.Template.{
  Scan, has_index, has_path, branches, new_paths, run_of_lower, nest, reference, plain, round, scan,
  initial, is_policy_char, expansion, with_reference, with_char,
}

-- The paths that references use, last first, as the code's set gets them.
abbrev pub paths_of : List Reference → List (ℕ × ℕ)
paths_of [] = []
paths_of (r ∷ rs) = paths_of rs ++ ((r.key, r.change) ∷ (r.key, r.receive) ∷ [])

abbrev pub Distinct : List (ℕ × ℕ) → Type 0
Distinct [] = Unit {0}
Distinct ((k, n) ∷ l) = (has_path k n l ≡ false) × Distinct l

paths_of-append :
    (rs : List Reference) (r : Reference)
    → paths_of (rs ++ (r ∷ [])) ≡ (r.key, r.change) ∷ (r.key, r.receive) ∷ paths_of rs
paths_of-append [] r = refl
paths_of-append (x ∷ rs) r = rw (paths_of-append rs r) refl

-- What the loop keeps: the references stand for the paths, their keys exist, and the bounds hold.
pub record Inv (key_count : ℕ) (s : Scan) : Type 0 where
  pub paths : s.paths ≡ paths_of s.references
  pub distinct : Distinct (paths_of s.references)
  pub known : All (λ (r : Reference). r.key < key_count) s.references
  pub few : length s.references ≤ 128
  pub nested : length s.nesting ≤ 64

module _ (key_texts : List Bytes) where
  get_elem?-lt :
      (texts : List Bytes) (i : ℕ) (t : Bytes) (m : String)
      → or_throw (get_elem? texts i) m ≡ ok t
      → i < length texts
  get_elem?-lt [] i t m e = cc
  get_elem?-lt (x ∷ xs) zero t m e = omega arith
  get_elem?-lt (x ∷ xs) (suc i) t m e = omega (arith, get_elem?-lt xs i t m e)

  is_false : (b : Bool) → not b ≡ true → b ≡ false
  is_false b h = ground arith

  with_reference-Inv :
      (s : Scan) (after rest : Bytes) (r : Reference) (expanded : Bytes)
      → Inv (length key_texts) s
      → r.key < length key_texts
      → new_paths r.key r.receive r.change s.paths ≡ true
      → length s.references + 1 ≤ 128
      → Inv (length key_texts) (with_reference s after rest r expanded)
  unfolding with_reference new_paths
  with_reference-Inv s after rest r expanded v known fresh room = record {
    paths =
        ap (λ (l : List (ℕ × ℕ)). (r.key, r.change) ∷ (r.key, r.receive) ∷ l) v.paths
        ∙ sym (paths_of-append s.references r);
    distinct =
        rw (paths_of-append s.references r)
          (is_false _ (and-true _ _ new).1, (is_false _ (and-true _ _ new).0, v.distinct));
    known = All-append _ s.references (r ∷ []) v.known (known, tt);
    few = omega (arith, length-append s.references (r ∷ []));
    nested = v.nested;
  }
    where
      new : new_paths r.key r.receive r.change (paths_of s.references) ≡ true
      new = subst (λ l. new_paths r.key r.receive r.change l ≡ true) v.paths fresh

  reference-Inv :
      (s : Scan) (after : Bytes)
      → Inv (length key_texts) s
      → Ensures (Inv (length key_texts)) (reference key_texts s after)
  unfolding reference
  reference-Inv s after v = Ensures-bind (number after) λ (index, s1) _.
      Ensures-bind (or_throw (get_elem? key_texts index) "Unknown policy key") λ text found.
        Ensures-require (has_index index s.seen || index == length s.seen) _ λ _.
          Ensures-bind (take_token (codes "/") s1) λ s2 _.
            Ensures-bind (branches s2) λ (receive, change, s3) _.
              Ensures-require (new_paths index receive change s.paths) _ λ fresh.
                Ensures-require (leb (length s.references + 1) 128) _ λ room.
                  Ensures-require (leb (length (s.expanded ++ expansion text receive change)) 65536)
                    _
                    λ _.
                      let r : Reference = record {
                        key = index;
                        receive = receive;
                        change = change;
                      } in
                      returns
                        {a = with_reference s after s3 r
                          (s.expanded ++ expansion text receive change)}
                        (with_reference-Inv s after s3 r _ v
                          (get_elem?-lt key_texts index text _ found) fresh (leb→le _ _ room))

  nest-depth :
      (c : ℕ) (nesting : Bytes)
      → length nesting ≤ 64
      → Ensures (λ (n : Bytes). length n ≤ 64) (nest c nesting)
  unfolding nest
  nest-depth c nesting h =
      Ensures-if (c == b'(' || c == b'{')
        (λ _.
          Ensures-require (leb (length (c ∷ nesting)) 64) _
            λ k. returns {a = c ∷ nesting} (leb→le _ _ k))
        (λ _.
          Ensures-if (c == b')' || c == b'}') (λ _. close nesting h) (λ _. returns {a = nesting} h))
    where
      close :
          (n : Bytes)
          → length n ≤ 64
          → Ensures
              (λ (n : Bytes). length n ≤ 64)
              (elim n [
                | [] ↦ err "Unbalanced policy"
                | open' ∷ outer ↦
                    require (open' == (if c == b')' then b'(' else b'{')) "Unbalanced policy"
                    >> ok outer
              ])
      close [] h = throws
      close (o ∷ outer) h =
          Ensures-require (o == (if c == b')' then b'(' else b'{')) _
            λ _. returns {a = outer} (omega arith)

  plain-Inv :
      (s : Scan) (c : ℕ) (after : Bytes)
      → Inv (length key_texts) s
      → Ensures (Inv (length key_texts)) (plain key_texts s c after)
  unfolding plain with_char
  plain-Inv s c after v = Ensures-require (is_policy_char c) _ λ _.
      Ensures-bind (nest c s.nesting) λ nesting nested.
        let wrappers : ℕ = if c == b':' then s.wrappers + run_of_lower s.before else s.wrappers in
        Ensures-require (leb wrappers 64 || not (c == b':')) _ λ _.
          returns {a = with_char s c after nesting wrappers} (record {
            paths = v.paths;
            distinct = v.distinct;
            known = v.known;
            few = v.few;
            nested = Ensures-value (nest-depth c s.nesting v.nested) nesting nested;
          })

  round-Inv :
      (s : Scan) (rest : Bytes)
      → Inv (length key_texts) s
      → Ensures (Inv (length key_texts)) (round key_texts s rest)
  unfolding round
  round-Inv s [] v = returns {a = s} v
  round-Inv s (c ∷ after) v =
      Ensures-if (c == b'@') (λ _. reference-Inv s after v) (λ _. plain-Inv s c after v)

  pub scan-Inv :
      (fuel : ℕ) (s : Scan)
      → Inv (length key_texts) s
      → Ensures (Inv (length key_texts)) (scan key_texts fuel s)
  unfolding scan
  scan-Inv zero s v = Ensures-require (is_empty s.rest) _ λ _. returns {a = s} v
  scan-Inv (suc fuel) s v = elim (Bool-cases (is_empty s.rest)) [
    | inl e ↦ rw (e, scan) (returns {a = s} v)
    | inr e ↦
        rw (e, scan)
          (Ensures-bind (round key_texts s s.rest)
            λ s' r. scan-Inv fuel s' (Ensures-value (round-Inv s s.rest v) s' r))
  ]

pub initial-Inv : (n : ℕ) (text : Bytes) → Inv n (initial text)
unfolding initial
initial-Inv n text = record {
  paths = refl;
  distinct = tt;
  known = tt;
  few = omega arith;
  nested = omega arith;
}
