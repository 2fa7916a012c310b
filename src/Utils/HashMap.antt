-- ===== src/Utils/HashMap.antt =====
-- src/utils/HashMap.h, class `HashMap<K, V>`, with `MapEntry` and `ValueUpdater` of
-- src/utils/HashMapArray.h. Keys are compared by the `operator==` of `K`; the pointer that
-- `getValue` returns is given as the value that it points to.
pub mod Laws
mod Tests
use premir_cpp.Common.{ℕ, Bool, Option, none, some, if◌then◌else◌}
use premir_cpp.Common.Run.{Run, ok, ◌>>=◌}
use premir_cpp.Utils.HashEngine.{HashEngine, hash_index}
use premir_cpp.Utils.RdMatrix
use premir_cpp.Utils.RdMatrix.{RdMatrix}
use premir_cpp.Utils.Bucket.{look_up, push_entry}

pub record MapEntry (K V : Type 0) : Type 0 where
  pub key : K
  pub value : V

pub record HashMap (K V : Type 0) : Type 0 where
  pub matrix : RdMatrix Bool (MapEntry K V)
  pub engine : HashEngine K

module _ {K V : Type 0} where
  -- The constructor, given `sizeof(MapEntry)` and `sizeof(Row)`.
  unfoldable pub new : HashEngine K → ℕ → ℕ → HashMap K V
  new engine t row = record { matrix = RdMatrix.new t row; engine = engine }

  -- `&row[i].value`, or `nullptr`.
  unfoldable pub value_pointer : Option (MapEntry K V) → Option V
  value_pointer none = none
  value_pointer (some entry) = some entry.value

module _ {V : Type 0} where
  -- `updater ? updater->update(old, value) : memcpy(old, value)`.
  unfoldable pub updated : Option (V → V → V) → V → V → V
  updated none old value = value
  updated (some update) old value = update old value

module _ {K V : Type 0} (same : K → K → Bool) where
  unfoldable pub push_value :
      (ℕ → Bool) → HashMap K V → K → V → Option (V → V → V) → Run (HashMap K V × Bool)
  unfolding push_entry
  push_value grants m key value updater = do
    row_index ← hash_index m.engine key
    (matrix, added) ←
        push_entry (λ entry. same entry.key key) grants
          (λ old. record old { value = updated updater old.value value })
          (record { key = key; value = value }) m.matrix row_index
    ok (record m { matrix = matrix }, added)

  unfoldable pub get_value : HashMap K V → K → Run (Option V)
  unfolding look_up value_pointer
  get_value m key = do
    row_index ← hash_index m.engine key
    found ← look_up (λ entry. same entry.key key) m.matrix row_index
    ok (value_pointer found)
