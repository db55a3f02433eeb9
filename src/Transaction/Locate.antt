-- ===== src/Transaction/Locate.antt =====
-- src/transaction.cpp, Locate: the position in the policy of an input or an output, by its script.
pub mod Unique
use thunderden.Base.{
  ℕ, zero, suc, ◌+◌, Bool, true, false, not, ◌&&◌, ◌||◌, List, [], ◌∷◌, ◌++◌, Option, none, some,
  leb, ltb, ◌==◌, if◌then◌else◌, is_some, length, Result, ok, err, ◌>>=◌, ◌>>◌, require, Bytes,
}
use thunderden.Core.{Core}
use thunderden.Policy.{Position, Policy}
use thunderden.Policy.Positions.{Hint, positions, script}

-- Operator < of Position, which orders the set of candidates.
unfoldable pub position_lt : Position → Position → Bool
position_lt a b = ltb a.branch b.branch || (a.branch == b.branch && ltb a.index b.index)

-- Insertion into an ordered set.
unfoldable pub insert : {A : Type 0} → (A → A → Bool) → A → List A → List A
insert lt p [] = p ∷ []
insert lt p (q ∷ l) =
    let rest = insert lt p l in if lt p q then p ∷ (q ∷ l) else if lt q p then q ∷ rest else q ∷ l

unfoldable pub insert_all : List Position → List Position → List Position
insert_all [] l = l
insert_all (p ∷ ps) l = insert_all ps (insert position_lt p l)

module _ (core : Core) (p : Policy core) where
  -- The lambda `add` on each hint in turn.
  unfoldable pub collect : List (Bytes × Hint) → List Position → Result (List Position)
  collect [] candidates = ok candidates
  collect ((key, hint) ∷ hints) candidates =
      let candidates' = insert_all (positions core p hint) candidates in
      require (leb (length candidates') 16) "Too many candidate address positions"
      >> collect hints candidates'

  unfoldable pub pick : core.Script → List Position → Option Position → Result (Option Position)
  pick target [] result = ok result
  pick target (c ∷ candidates) result = do
    s ← script core p c.branch c.index
    rest ←
        if core.script_eq s target
        then (require (not (is_some result)) "Ambiguous policy script" >> ok (some c))
        else ok result
    pick target candidates rest

  unfoldable pub locate :
      core.Script → List (Bytes × Hint) → List (Bytes × Hint) → Result (Option Position)
  locate target hd_keypaths tap_paths = do
    require (leb (length hd_keypaths + length tap_paths) 128) "Too many derivation hints"
    some_candidates ← collect hd_keypaths []
    candidates ← collect tap_paths some_candidates
    pick target candidates none
