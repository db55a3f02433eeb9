-- ===== src/Entropy.antt =====
-- src/entropy.h and src/entropy.cpp: the contributions to a new seed, and how they are mixed. The hash,
-- EntropyHash, is a parameter: it is given all bytes that the code writes to it, in order. A source is one
-- of three, so the checks that refuse any other value of the enumeration have nothing to do here.
pub mod Separation
pub mod Tests
use thunderden.Base.{
  ℕ, ◌+◌, ◌*◌, ◌/◌, Bool, true, false, not, ◌&&◌, ◌||◌, List, [], ◌∷◌, ◌++◌, leb, ltb, ◌==◌,
  if◌then◌else◌, length, take, all, is_empty, Result, ok, err, ◌>>=◌, ◌>>◌, require, codes, Bytes,
}
use thunderden.Cbor.Encoding.{big_endian}

pub data ManualSource : Type 0 where
  no_manual coins dice : ManualSource

pub source_tag : ManualSource → ℕ
source_tag no_manual = 0
source_tag coins = 1
source_tag dice = 3

abbrev pub is_word_count : ℕ → Bool
is_word_count words = words == 12 || words == 24

-- Domain and Field, as the bytes that they write.
pub field : ℕ → Bytes → Bytes
field tag bytes = tag ∷ (big_endian 8 (length bytes) ++ bytes)

abbrev pub manual_domain : Bytes
manual_domain = codes "ThunderDen/entropy/manual/v1" ++ (0 ∷ [])

abbrev pub camera_domain : Bytes
camera_domain = codes "ThunderDen/entropy/camera/v1" ++ (0 ∷ [])

abbrev pub final_domain : Bytes
final_domain = codes "ThunderDen/entropy/final/v1" ++ (0 ∷ [])

target : ManualSource → ℕ → ℕ
target coins words = 150 * (words / 12)
target source words = 64 * (words / 12)

abbrev is_manual : ManualSource → Bool
is_manual no_manual = false
is_manual coins = true
is_manual dice = true

pub manual_target : ManualSource → ℕ → Result ℕ
unfolding target
manual_target source words = do
  require (is_word_count words) "Choose 12 or 24 words"
  require (is_manual source) "Unknown manual source"
  ok (target source words)

abbrev faces : ManualSource → ℕ
faces dice = 6
faces coins = 2
faces no_manual = 2

pub manual_input : ManualSource → Bytes → Bytes
manual_input source samples = manual_domain ++ (field 1 (source_tag source ∷ []) ++ field 2 samples)

pub camera_input : Bytes → ℕ → Bytes → Bytes
camera_input profile count digest =
    camera_domain ++ (field 1 profile ++ (field 2 (big_endian 8 count) ++ field 3 digest))

abbrev pub camera_record : Bytes → Bytes
camera_record camera = (if is_empty camera then 0 else 1) ∷ camera

pub mix_input : ℕ → Bytes → ManualSource → Bytes → Bytes → Bytes
mix_input words camera source manual random =
    final_domain
    ++ (field 1 (words ∷ [])
        ++ (field 2 (camera_record camera)
            ++ (field 3 (source_tag source ∷ manual) ++ field 4 random)))

-- Which contributions go with a source: 32 bytes of one, none without.
abbrev pub fits_source : ManualSource → Bytes → Bool
fits_source no_manual manual = is_empty manual
fits_source coins manual = length manual == 32
fits_source dice manual = length manual == 32

module _ (hash : Bytes → Bytes) where
  pub manual_contribution : ManualSource → Bytes → Result Bytes
  manual_contribution source samples = do
    require (not (is_empty samples)) "Invalid manual contribution size"
    most ← manual_target source 24
    require (leb (length samples) most) "Invalid manual contribution size"
    require (all (λ c. ltb c (faces source)) samples) "Invalid toss or roll"
    ok (hash (manual_input source samples))

  pub camera_contribution : Bytes → ℕ → Bytes → Result Bytes
  camera_contribution profile count digest = do
    require
        (not (is_empty profile)
          && (leb (length profile) 64 && (ltb 0 count && length digest == 32)))
        "Invalid camera contribution"
    ok (hash (camera_input profile count digest))

  pub mix_entropy : ℕ → Bytes → ManualSource → Bytes → Bytes → Result Bytes
  mix_entropy words camera source manual random = do
    require (is_word_count words) "Choose 12 or 24 words"
    require
        (length random == 32
          && ((is_empty camera || length camera == 32) && fits_source source manual))
        "Invalid entropy contributions"
    ok (
        if words == 12
        then take 16 (hash (mix_input words camera source manual random))
        else hash (mix_input words camera source manual random))
