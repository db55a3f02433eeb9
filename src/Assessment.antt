-- ===== src/Assessment.antt =====
-- src/assessment_progress.h and src/assessment_progress.cpp, class AssessmentProgress: the records of 20 bytes that a
-- worker sends about its checks of a camera. A record that is refused ends the work, so nothing of it is kept.
pub mod Chunks
pub mod Invariant
mod Tests
use thunderden.Base.{
  ℕ, zero, suc, ◌+◌, ◌-◌, ◌*◌, ◌/◌, Bool, true, false, not, ◌&&◌, ◌||◌, List, [], ◌∷◌, ◌++◌, Option,
  none, some, leb, ltb, ◌==◌, if◌then◌else◌, is_some, is_empty, length, take, drop, get_or, Result,
  ok, err, ◌>>=◌, ◌>>◌, require, codes, Bytes,
}
use thunderden.Decimal.{to_string}

-- ReadBE32 and ReadBE64 of Bitcoin Core, and doubles by their bits with the tests on them.
pub record Wire : Type 1 where
  pub Double : Type 0
  pub read_be32 : Bytes → ℕ
  pub read_be64 : Bytes → ℕ
  pub bit_cast : ℕ → Double
  pub is_finite : Double → Bool
  pub is_minus_one : Double → Bool
  pub is_at_least_minus_one : Double → Bool
  pub is_at_least_zero : Double → Bool
  pub is_at_most : Double → ℕ → Bool

-- ENTROPY_TEST_SAMPLES.
abbrev pub test_samples : ℕ
test_samples = 1048576

abbrev pub record_size : ℕ
record_size = 20

abbrev pub max_records : ℕ
max_records = 4096

-- Tuple and LRS, the tests 5 and 6, are one group.
abbrev pub group : ℕ → ℕ
group test = if leb test 5 then test else test - 1

abbrev checks : List Bytes
checks =
    codes "Counting common values"
    ∷ codes "Checking repetitions"
    ∷ codes "Checking value pairs"
    ∷ codes "Checking compression"
    ∷ codes "Checking sequences"
    ∷ codes "Using recent values"
    ∷ codes "Looking back in time"
    ∷ codes "Predicting next value"
    ∷ codes "Predicting sequences"
    ∷ []

module _ (wire : Wire) where
  -- The estimates by branch and test, from 0. Of the pending array, the bytes in use.
  pub record Progress : Type 0 where
    pub pending : Bytes
    pub records : ℕ
    pub alphabet : ℕ
    pub test : ℕ
    pub branch : ℕ
    pub processed : ℕ
    pub total : ℕ
    pub results : ℕ → ℕ → Option wire.Double

  abbrev pub start : Progress
  start = record {
    pending = [];
    records = 0;
    alphabet = 0;
    test = 0;
    branch = 0;
    processed = 0;
    total = 0;
    results = λ b t. none;
  }

  abbrev pub current : Progress → ℕ
  current p = group p.test

  -- The parts of a record.
  pub record Update : Type 0 where
    pub kind : ℕ
    pub test : ℕ
    pub branch : ℕ
    pub processed : ℕ
    pub total : ℕ
    pub estimate : wire.Double

  unfoldable pub parse : Bytes → Update
  parse s = record {
    kind = get_or s 0 0;
    test = get_or s 1 0;
    branch = get_or s 2 0;
    processed = wire.read_be32 (take 4 (drop 4 s));
    total = wire.read_be32 (take 4 (drop 8 s));
    estimate = wire.bit_cast (wire.read_be64 (take 8 (drop 12 s)));
  }

  unfoldable pub set_result :
      ℕ → ℕ → wire.Double → (ℕ → ℕ → Option wire.Double) → ℕ → ℕ → Option wire.Double
  set_result branch test estimate results b t =
      if b == branch && t == test then some estimate else results b t

  -- What a record of a check must be, whatever its kind.
  unfoldable pub is_check : Progress → Update → Bool
  is_check p u =
      leb 2 p.alphabet
      && (leb 1 u.kind
          && (leb u.kind 3
              && (leb 1 u.test
                  && (leb u.test 10
                      && (leb 1 u.branch
                          && (leb u.branch 2
                              && ((not (u.branch == 2) || p.alphabet == 3)
                                  && (not (
                                        p.alphabet == 3
                                        && (u.branch == 1 && (leb 2 u.test && leb u.test 4)))
                                      && (u.total
                                            == (if u.branch == 1 then test_samples else 1000000)
                                          && (leb u.processed u.total
                                              && wire.is_finite u.estimate))))))))))

  unfoldable pub is_result : Progress → Update → Bool
  is_result p u =
      u.processed == u.total
      && (wire.is_at_least_minus_one u.estimate
          && ((wire.is_minus_one u.estimate || wire.is_at_least_zero u.estimate)
              && (wire.is_at_most u.estimate (if u.branch == 2 || p.alphabet == 2 then 1 else 8)
                  && not (is_some (p.results (u.branch - 1) (u.test - 1))))))

  unfoldable pub is_input : Progress → Update → Bool
  is_input p u =
      p.alphabet == 0
      && (u.test == 0
          && (leb 1 u.branch
              && (leb u.branch 3
                  && (u.processed == test_samples
                      && (u.total == 1000000 && wire.is_minus_one u.estimate)))))

  unfoldable pub is_counter : Update → Bool
  is_counter u = wire.is_minus_one u.estimate && (not (u.kind == 1) || u.processed == 0)

  unfoldable pub input_update : Progress → Update → Result Progress
  input_update p u = do
    require (is_input p u) "Invalid camera check input"
    ok (record p { alphabet = u.branch })

  unfoldable pub check_update : Progress → Update → Result Progress
  check_update p u = do
    require (is_check p u) "Invalid camera check progress"
    require (leb (current p) (group u.test)) "Camera checks moved backwards"
    results ←
        if u.kind == 3
        then (require (is_result p u) "Invalid completed camera check"
            >> ok (set_result (u.branch - 1) (u.test - 1) u.estimate p.results))
        else (require (is_counter u) "Invalid camera check counter" >> ok p.results)
    ok (record p {
      results = results;
      test = if u.test == 6 then 5 else u.test;
      branch = u.branch;
      processed = u.processed;
      total = u.total;
    })

  -- Record, on the 20 bytes that are pending; they are used up.
  unfoldable pub take_record : Progress → Result Progress
  take_record p = do
    require (leb (p.records + 1) max_records && get_or p.pending 3 0 == 0)
        "Invalid camera check progress"
    let u = parse p.pending
    let p' : Progress = record p { records = p.records + 1; pending = [] }
    if u.kind == 0 then input_update p' u else check_update p' u

  -- Feed, with fuel for the bytes: a round takes one at least.
  unfoldable pub feed_from : ℕ → Progress → Bytes → Result Progress
  feed_from zero p s = ok p
  feed_from (suc fuel) p [] = ok p
  feed_from (suc fuel) p (c ∷ s) =
      let room = record_size - length p.pending in
      let p' : Progress = record p { pending = p.pending ++ take room (c ∷ s) } in
      (if length p'.pending == record_size then take_record p' else ok p') >>= λ q.
      feed_from fuel q (drop room (c ∷ s))

  unfoldable pub feed : Progress → Bytes → Result Progress
  feed p s = feed_from (length s) p s

  pub boundary : Progress → Result (Unit {0})
  boundary p = require (is_empty p.pending) "Incomplete camera check progress"

  abbrev is_done : Progress → ℕ → Bool
  is_done p test =
      is_some (p.results (if p.alphabet == 3 then 1 else 0) (test - 1))
      && (not (p.alphabet == 3 && (test == 1 || leb 5 test)) || is_some (p.results 0 (test - 1)))

  abbrev is_group_done : Progress → ℕ → Bool
  is_group_done p g =
      leb 2 p.alphabet
      && (if g == 5 then is_done p 5 && is_done p 6 else is_done p (if leb g 5 then g else g + 1))

  -- The groups from one on that are finished.
  finished_from : Progress → ℕ → ℕ → ℕ
  finished_from p zero g = 0
  finished_from p (suc n) g = (if is_group_done p g then 1 else 0) + finished_from p n (g + 1)

  pub finished : Progress → ℕ
  unfolding finished_from
  finished p = finished_from p 9 1

  pub check : Progress → Bytes
  check p =
      if p.test == 0 then codes "Waiting for camera data" else get_or checks (current p - 1) []

  pub pass : Progress → Bytes
  pass p =
      if p.test == 0
      then []
      else if p.test == 4 || p.test == 5
      then codes "This check: working..."
      else (if p.branch == 2 then codes "Bits: " else codes "Values: ")
        ++ (to_string p.processed
            ++ (codes "/"
                ++ (to_string p.total
                    ++ (codes " (" ++ (to_string (p.processed * 100 / p.total) ++ codes "%)")))))
