-- ===== src/Policy/Positions/Paths.antt =====
-- The last two steps of a derivation path, and lists of positions built under a condition.
use thunderden.Base.{
  ℕ, zero, suc, ◌≡◌, refl, sym, ap, ◌∙◌, inl, inr, Bool, true, false, List, [], ◌∷◌, ◌++◌, Option,
  none, some, if◌then◌else◌, In, Option-cases,
}
use thunderden.Policy.{Position, Reference}
use thunderden.Policy.Positions.{Steps, last_steps}

-- The branch number that a reference gives to a branch of the wallet.
abbrev pub branch_number : Reference → ℕ → ℕ
branch_number ref zero = ref.receive
branch_number ref (suc b) = ref.change

pub last_steps-cons :
    (a : ℕ) (path : List ℕ) (s : Steps)
    → last_steps path ≡ some s
    → last_steps (a ∷ path) ≡ some (record s { account = a ∷ s.account })
unfolding last_steps
last_steps-cons a [] s e = cc
last_steps-cons a (b ∷ []) s e = cc
last_steps-cons a (b ∷ (i ∷ path)) s e = rw (e, last_steps) refl

pub last_steps-snoc :
    (path : List ℕ) (b i : ℕ)
    → last_steps (path ++ (b ∷ (i ∷ []))) ≡ some (record { account = path; branch = b; index = i })
unfolding last_steps
last_steps-snoc [] b i = refl
last_steps-snoc (a ∷ path) b i =
    last_steps-cons a (path ++ (b ∷ (i ∷ []))) _ (last_steps-snoc path b i)

pub some-injective : {A : Type 0} (a b : A) → ◌≡◌ {A = Option A} (some a) (some b) → a ≡ b
some-injective a b e = cc

pub last_steps-inversion :
    (path : List ℕ) (s : Steps)
    → last_steps path ≡ some s
    → path ≡ s.account ++ (s.branch ∷ (s.index ∷ []))
unfolding last_steps
last_steps-inversion [] s e = cc
last_steps-inversion (b ∷ []) s e = cc
last_steps-inversion (b ∷ (i ∷ [])) s e =
    ap (λ (t : Steps). t.account ++ (t.branch ∷ (t.index ∷ []))) (some-injective _ _ e)
last_steps-inversion (a ∷ (b ∷ (i ∷ path))) s e =
    elim (Option-cases (last_steps (b ∷ (i ∷ path)))) [
      | inl n ↦ absurd (none-some (sym (last_steps-none n) ∙ e))
      | inr (t, k) ↦
          ap (λ l. a ∷ l) (last_steps-inversion (b ∷ (i ∷ path)) t k)
          ∙ ap (λ (t : Steps). t.account ++ (t.branch ∷ (t.index ∷ [])))
              (some-injective _ _ (sym (last_steps-cons a (b ∷ (i ∷ path)) t k) ∙ e))
    ]
  where
    none-some : {A : Type 0} {x : A} → ◌≡◌ {A = Option A} none (some x) → ⊥
    none-some q = cc

    last_steps-none : last_steps (b ∷ (i ∷ path)) ≡ none → last_steps (a ∷ (b ∷ (i ∷ path))) ≡ none
    last_steps-none n = rw (n, last_steps) refl

pub In-if :
    (c : Bool) (q position : Position)
    → In position (if c then q ∷ [] else [])
    → (c ≡ true) × (position ≡ q)
In-if true q position (inl e) = (refl, e)
In-if true q position (inr h) = absurd h
In-if false q position h = absurd h

pub if-In : (c : Bool) (q : Position) → c ≡ true → In q (if c then q ∷ [] else [])
if-In true q e = inl refl
if-In false q e = cc

pub In-then :
    (c : Bool) (l : List Position) (q : Position) → In q (if c then l else []) → (c ≡ true) × In q l
In-then true l q h = (refl, h)
In-then false l q h = absurd h

pub then-In :
    (c : Bool) (l : List Position) (q : Position) → c ≡ true → In q l → In q (if c then l else [])
then-In c l q e h = rw e h

pub In-else :
    (c : Bool) (l : List Position) (q : Position)
    → In q (if c then [] else l)
    → (c ≡ false) × In q l
In-else true l q h = absurd h
In-else false l q h = (refl, h)

pub else-In :
    (c : Bool) (l : List Position) (q : Position) → c ≡ false → In q l → In q (if c then [] else l)
else-In c l q e h = rw e h
