-- ===== src/Entropy/Tests.antt =====
-- Two equal mixtures of a camera contribution with random bytes.
use thunderden.Base.{ℕ, ◌≡◌, refl, [], take, replicate, Bytes}
use thunderden.Entropy.{no_manual, mix_input, mix_entropy}
use thunderden.Entropy.Separation.{mix_separates}

abbrev camera : Bytes
camera = replicate 32 5

abbrev random : Bytes
random = replicate 32 9

mix_separates_example :
    (◌≡◌ {A = ℕ} 12 12)
    × (camera ≡ camera)
    × (no_manual ≡ no_manual)
    × (◌≡◌ {A = Bytes} [] [])
    × (random ≡ random)
unfolding mix_entropy
mix_separates_example =
    mix_separates (λ s. s) 12 12 camera camera no_manual no_manual [] [] random random
      (take 16 (mix_input 12 camera no_manual [] random))
      (take 16 (mix_input 12 camera no_manual [] random)) refl refl refl
