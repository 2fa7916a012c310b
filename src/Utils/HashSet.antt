-- ===== src/Utils/HashSet.antt =====
-- src/utils/HashSet.h, class `HashSet<K>`. The two overloads of `push` differ in copying or moving
-- the value, which is one thing here; the pointer that `getValue` returns is given as the value
-- that it points to.
pub mod Laws
mod Tests
use premir_cpp.Common.{ℕ, Bool, true, false, Option, none, some, if◌then◌else◌, is_some}
use premir_cpp.Common.Run.{Run, ok, ◌>>=◌}
use premir_cpp.Utils.HashEngine.{HashEngine, hash_index}
use premir_cpp.Utils.RdMatrix
use premir_cpp.Utils.RdMatrix.{RdMatrix}
use premir_cpp.Utils.Bucket.{look_up, push_entry}

pub record HashSet (K : Type 0) : Type 0 where
  pub matrix : RdMatrix Bool K
  pub engine : HashEngine K

module _ {K : Type 0} where
  -- The constructor, given `sizeof(K)` and `sizeof(Row)`.
  unfoldable pub new : HashEngine K → ℕ → ℕ → HashSet K
  new engine t row = record { matrix = RdMatrix.new t row; engine = engine }

  -- `if (updater) updater->update(oldValue, value)`.
  unfoldable pub renewed : Option (K → K → K) → K → K → K
  renewed none value old = old
  renewed (some update) value old = update old value

module _ {K : Type 0} (same : K → K → Bool) where
  unfoldable pub push : (ℕ → Bool) → HashSet K → K → Option (K → K → K) → Run (HashSet K × Bool)
  unfolding push_entry
  push grants s value updater = do
    row_index ← hash_index s.engine value
    (matrix, added) ←
        push_entry (λ old. same old value) grants (renewed updater value) value s.matrix row_index
    ok (record s { matrix = matrix }, added)

  unfoldable pub get_value : HashSet K → K → Run (Option K)
  unfolding look_up
  get_value s value = do
    row_index ← hash_index s.engine value
    look_up (λ old. same old value) s.matrix row_index

  unfoldable pub contains : HashSet K → K → Run Bool
  unfolding look_up
  contains s value = do
    row_index ← hash_index s.engine value
    found ← look_up (λ old. same old value) s.matrix row_index
    ok (is_some found)
