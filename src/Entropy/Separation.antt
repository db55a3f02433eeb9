-- ===== src/Entropy/Separation.antt =====
-- src/entropy.cpp: what the hashed bytes tell of the contributions.
use thunderden.Base.{
  ℕ, ◌≤◌, ◌<◌, ◌≡◌, refl, sym, ap, ◌∙◌, true, ◌&&◌, ◌||◌, [], ◌∷◌, ◌++◌, ◌==◌, ==_iff, length, drop,
  is_empty, Result, ok, Bytes, arith, and-true, require-eq-ok, ok-injective, drop-append_length,
  append_assoc,
}
use thunderden.Cbor.{read_be}
use thunderden.Cbor.Encoding.{pow256, big_endian}
use thunderden.Cbor.Canonical.{read_be-big_endian}
use thunderden.Entropy.{
  ManualSource, no_manual, coins, dice, source_tag, field, mix_input, mix_entropy, camera_record,
  fits_source, final_domain, is_word_count,
}

append-cancel : (p a b : Bytes) → p ++ a ≡ p ++ b → a ≡ b
append-cancel p a b e =
    sym (drop-append_length p a) ∙ (ap (drop (length p)) e ∙ drop-append_length p b)

split_same : (a b r s : Bytes) → length a ≡ length b → a ++ r ≡ b ++ s → (a ≡ b) × (r ≡ s)
split_same [] [] r s h e = (refl, e)
split_same [] (y ∷ b) r s h e = let bad : ⊥ = omega (arith, h) in absurd bad
split_same (x ∷ a) [] r s h e = let bad : ⊥ = omega (arith, h) in absurd bad
split_same (x ∷ a) (y ∷ b) r s h e =
    let same : x ≡ y = cc in
    let tails : a ++ r ≡ b ++ s = cc in
    let (k, l) = split_same a b r s (omega (arith, h)) tails in (rw (same, k) refl, l)

pair_injective :
    (m n : ℕ) (r s : Bytes)
    → ◌≡◌ {A = Result (ℕ × Bytes)} (ok (m, r)) (ok (n, s))
    → (m ≡ n) × (r ≡ s)
pair_injective m n r s e =
    let h = ok-injective (m, r) (n, s) e in (ap (λ p. p.0) h, ap (λ p. p.1) h)

-- A length in front of the bytes tells where they end.
length_prefix :
    (a b r s : Bytes)
    → length a < pow256 8
    → length b < pow256 8
    → big_endian 8 (length a) ++ (a ++ r) ≡ big_endian 8 (length b) ++ (b ++ s)
    → (a ≡ b) × (r ≡ s)
unfolding pow256
length_prefix a b r s ha hb e =
    let ra = read_be-big_endian 8 0 (length a) (a ++ r) (omega arith) ha in
    let rb = read_be-big_endian 8 0 (length b) (b ++ s) (omega arith) hb in
    let (n, t) = pair_injective _ _ _ _ (sym ra ∙ (ap (read_be 8 0) e ∙ rb)) in
    split_same a b r s (omega (arith, n)) t

field-cancel :
    (tag : ℕ) (a b r s : Bytes)
    → length a < 1000
    → length b < 1000
    → field tag a ++ r ≡ field tag b ++ s
    → (a ≡ b) × (r ≡ s)
unfolding field pow256
field-cancel tag a b r s ha hb e =
    let inner : big_endian 8 (length a) ++ (a ++ r) ≡ big_endian 8 (length b) ++ (b ++ s) =
      sym (append_assoc (big_endian 8 (length a)) a r)
      ∙ (ap (drop 1) e ∙ append_assoc (big_endian 8 (length b)) b s) in
    length_prefix a b r s (omega arith) (omega arith) inner

source_tag-injective : (a b : ManualSource) → source_tag a ≡ source_tag b → a ≡ b
unfolding source_tag
source_tag-injective no_manual no_manual e = refl
source_tag-injective coins coins e = refl
source_tag-injective dice dice e = refl
source_tag-injective no_manual coins e = let bad : ⊥ = omega (arith, e) in absurd bad
source_tag-injective no_manual dice e = let bad : ⊥ = omega (arith, e) in absurd bad
source_tag-injective coins no_manual e = let bad : ⊥ = omega (arith, e) in absurd bad
source_tag-injective coins dice e = let bad : ⊥ = omega (arith, e) in absurd bad
source_tag-injective dice no_manual e = let bad : ⊥ = omega (arith, e) in absurd bad
source_tag-injective dice coins e = let bad : ⊥ = omega (arith, e) in absurd bad

manual_length :
    (source : ManualSource) (manual : Bytes) → fits_source source manual ≡ true → length manual ≤ 32
manual_length no_manual [] h = omega arith
manual_length no_manual (c ∷ l) h = cc
manual_length coins manual h = ground arith
manual_length dice manual h = ground arith

optional_length :
    (camera : Bytes) → (is_empty camera || length camera == 32) ≡ true → length camera ≤ 32
optional_length [] h = omega arith
optional_length (c ∷ l) h = ground arith

-- The sizes of contributions that `MixEntropy` accepts.
accepted_sizes :
    (hash : Bytes → Bytes) (words : ℕ) (camera : Bytes) (source : ManualSource)
    (manual random out : Bytes)
    → mix_entropy hash words camera source manual random ≡ ok out
    → (length camera ≤ 32) × (length manual ≤ 32) × (length random ≡ 32)
unfolding mix_entropy
accepted_sizes hash words camera source manual random out e =
    let (_, e1) = require-eq-ok (is_word_count words) _ _ e in
    let (guard, _) =
      require-eq-ok
        (length random == 32
          && ((is_empty camera || length camera == 32) && fits_source source manual))
        _ _ e1 in
    let (r, rest) = and-true (length random == 32) _ guard in
    let (c, m) =
      and-true (is_empty camera || length camera == 32) (fits_source source manual) rest in
    (optional_length camera c, manual_length source manual m, (==_iff (length random) 32).0 r)

-- If `MixEntropy` accepts two sets of contributions and hashes the same bytes for both, then they agree in
-- the word count, the camera's contribution, the manual source and its contribution, and the random bytes.
pub mix_separates :
    (hash : Bytes → Bytes) (words words' : ℕ) (camera camera' : Bytes)
    (source source' : ManualSource) (manual manual' random random' out out' : Bytes)
    → mix_entropy hash words camera source manual random ≡ ok out
    → mix_entropy hash words' camera' source' manual' random' ≡ ok out'
    → mix_input words camera source manual random ≡ mix_input words' camera' source' manual' random'
    → (words ≡ words')
      × (camera ≡ camera')
      × (source ≡ source')
      × (manual ≡ manual')
      × (random ≡ random')
unfolding mix_input
mix_separates hash words words' camera camera' source source' manual manual' random random' out out'
      e e' same =
    let (hc, hm, hr) = accepted_sizes hash words camera source manual random out e in
    let (hc', hm', hr') = accepted_sizes hash words' camera' source' manual' random' out' e' in
    let (w, t1) =
      field-cancel 1 (words ∷ []) (words' ∷ []) _ _ (omega arith) (omega arith)
        (append-cancel final_domain _ _ same) in
    let (c, t2) =
      field-cancel 2 (camera_record camera) (camera_record camera') _ _ (omega (arith, hc))
        (omega (arith, hc')) t1 in
    let (m, t3) =
      field-cancel 3 (source_tag source ∷ manual) (source_tag source' ∷ manual') _ _
        (omega (arith, hm)) (omega (arith, hm')) t2 in
    let (r, _) =
      field-cancel 4 random random' [] [] (omega (arith, hr)) (omega (arith, hr'))
        (ap (λ l. l ++ []) t3) in
    (ap first w, ap (drop 1) c, source_tag-injective source source' (ap first m), ap (drop 1) m, r)
  where
    first : Bytes → ℕ
    first [] = 0
    first (x ∷ l) = x
