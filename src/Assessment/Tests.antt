-- ===== src/Assessment/Tests.antt =====
-- The first two records of a worker: its input, and the start of a check.
use thunderden.Base.{
  ℕ, ◌+◌, ◌*◌, ◌≡◌, refl, true, [], ◌∷◌, ◌++◌, none, Bytes, ◌>>=◌, leb, ◌==◌, inl, leb→le,
}
use thunderden.Assessment.{
  Wire, Progress, start, parse, is_input, is_check, is_counter, input_update, check_update,
  take_record, feed_from, feed,
}
use thunderden.Assessment.Chunks.{feed_bytes, feed_chunks}
use thunderden.Assessment.Invariant.{Inv, Advances, feed_keeps}

abbrev be32 : Bytes → ℕ
be32 (a ∷ (b ∷ (c ∷ (d ∷ [])))) = ((a * 256 + b) * 256 + c) * 256 + d
be32 s = 0

abbrev last_of : Bytes → ℕ
last_of [] = 0
last_of (c ∷ []) = c
last_of (c ∷ (d ∷ s)) = last_of (d ∷ s)

-- A double by its last byte, where 99 stands for -1.
abbrev wire : Wire
wire = record {
  Double = ℕ;
  read_be32 = be32;
  read_be64 = last_of;
  bit_cast = λ n. n;
  is_finite = λ d. true;
  is_minus_one = λ d. d == 99;
  is_at_least_minus_one = λ d. true;
  is_at_least_zero = λ d. leb d 98;
  is_at_most = λ d n. d == 99;
}

abbrev minus_one : Bytes
minus_one = 0 ∷ 0 ∷ 0 ∷ 0 ∷ 0 ∷ 0 ∷ 0 ∷ 99 ∷ []

abbrev first_record : Bytes
first_record =
    (0 ∷ 0 ∷ 3 ∷ 0 ∷ 0x00 ∷ 0x10 ∷ 0x00 ∷ 0x00 ∷ 0x00 ∷ 0x0F ∷ 0x42 ∷ 0x40 ∷ []) ++ minus_one

abbrev second_record : Bytes
second_record = (1 ∷ 1 ∷ 1 ∷ 0 ∷ 0 ∷ 0 ∷ 0 ∷ 0 ∷ 0x00 ∷ 0x10 ∷ 0x00 ∷ 0x00 ∷ []) ++ minus_one

abbrev begun : Progress wire
begun = record {
  pending = [];
  records = 2;
  alphabet = 3;
  test = 1;
  branch = 1;
  processed = 0;
  total = 1048576;
  results = λ b t. none;
}

start-Inv : Inv wire (start wire)
start-Inv = record {
  few = leb→le 0 4096 refl;
  known_alphabet = leb→le 0 3 refl;
  known_test = leb→le 0 10 refl;
  not_six = refl;
  counted = inl refl;
}

feed_keeps_example : Inv wire begun × Advances wire (start wire) begun
unfolding feed feed_from take_record parse input_update check_update is_input is_check is_counter
feed_keeps_example =
    feed_keeps wire (start wire) begun (first_record ++ second_record) start-Inv (leb→le 1 20 refl)
      refl

feed_chunks_example :
    (feed wire (start wire) (first_record ++ second_record)
      ≡ feed_bytes wire (start wire) (first_record ++ second_record))
    × (feed wire (start wire) (first_record ++ second_record)
        ≡ (feed wire (start wire) first_record >>= λ q. feed wire q second_record))
feed_chunks_example = feed_chunks wire (start wire) first_record second_record (leb→le 1 20 refl)
