-- ===== src/Process/Shutdown.antt =====
-- The programs under cmd/: what they have opened and closed when they end.
use mathlib.Core.Option
use noapp.Prelude.{ℕ, suc, Option, none, some, List, [], ◌∷◌, ◌++◌, map, take, ◌≡◌}
use noapp.Runtime.{Runtime}
use noapp.Process.{Resource, Act, opened, closed, exited, Statement, opens, calls, defers}

-- How many openings come before the first call of a set-up that fails, none if no call fails.
abbrev pub failure : List Statement → Option ℕ
failure [] = none
failure (opens r none ∷ ss) = Option.map suc (failure ss)
failure (opens r (some e) ∷ ss) = some 0
failure (calls none ∷ ss) = failure ss
failure (calls (some e) ∷ ss) = some 0
failure (defers rs ∷ ss) = failure ss

abbrev openings : List Statement → List Resource
openings [] = []
openings (opens r e ∷ ss) = r ∷ openings ss
openings (calls e ∷ ss) = openings ss
openings (defers rs ∷ ss) = openings ss

abbrev closings : List Statement → List Resource → List Resource
closings [] deferred = deferred
closings (opens r e ∷ ss) deferred = closings ss deferred
closings (calls e ∷ ss) deferred = closings ss deferred
closings (defers rs ∷ ss) deferred = closings ss (rs ++ deferred)

-- How a main ends whose set-up fails after some openings or not at all, which opens the resources `rs` in their order, runs
-- `body`, and closes the resources `ds` in theirs.
pub data Orderly (f : Option ℕ) (rs ds : List Resource) (body acts : List Act) : Type 0 where
  cut_short :
      (n : ℕ)
      → f ≡ some n
      → acts ≡ map opened (take n rs) ++ exited 1 ∷ []
      → Orderly f rs ds body acts
  returned : f ≡ none → acts ≡ map opened rs ++ (body ++ map closed ds) → Orderly f rs ds body acts
