-- ===== src/Utils/HashMap/Laws.antt =====
-- `HashMap` of src/utils/HashMap.h as a map from keys to values.
use premir_cpp.Common.{
  ℕ, ◌<◌, ◌≡◌, refl, sym, ap, ◌∙◌, Bool, true, false, not, inl, inr, List, [], Option, none, some,
  ◌==◌, ==-refl, if◌then◌else◌, is_some, Bool-cases, Option-cases, ==_iff,
}
use premir_cpp.Common.Run.{ok, ◌>>=◌, Returns, returns, Returns-bind, ok-if}
use premir_cpp.Utils.HashEngine.{HashEngine, bucket, hash_index-ok}
use premir_cpp.Utils.HashEngine.Equality.{IsEquality, alike, same_as}
use premir_cpp.Utils.RdMatrix.Prepare.{IsStore, new-IsStore, update}
use premir_cpp.Utils.Bucket.Laws.{look_up-find?, push_entry-insert}
use premir_cpp.Utils.Bucket.Search.{find?, insert, find?-insert_self, find?-insert_other}
use premir_cpp.Utils.HashMap.{MapEntry, HashMap, new, value_pointer, updated, push_value, get_value}

-- The matrix is a store of lists of entries, and there is at least one bucket.
pub record IsMap {K V : Type 0} (m : HashMap K V) : Type 0 where
  pub lists : ℕ → List (MapEntry K V)
  pub store : IsStore lists m.matrix
  pub buckets : 0 < m.engine.index_size

module _ {K V : Type 0} where
  pub new-IsMap :
      (engine : HashEngine K) (t row : ℕ) → 0 < engine.index_size → IsMap (new {V = V} engine t row)
  unfolding new
  new-IsMap engine t row h = record { lists = λ r. []; store = new-IsStore t row; buckets = h }

module _ {V : Type 0} where
  -- What the key is mapped to after `value` was pushed over what it was mapped to.
  unfoldable pub merged : Option (V → V → V) → V → Option V → V
  merged updater value none = value
  merged updater value (some old) = updated updater old value

module _ {K V : Type 0} (same : K → K → Bool) where
  -- The entry with a key.
  abbrev pub at : K → MapEntry K V → Bool
  at key entry = same entry.key key

  get_value-find? :
      (m : HashMap K V) (v : IsMap m) (key : K)
      → get_value same m key ≡ ok (value_pointer (find? (at key) (v.lists (bucket m.engine key))))
  unfolding get_value
  get_value-find? m v key = rw (
    hash_index-ok m.engine key v.buckets,
    look_up-find? (at key) v.lists m.matrix (bucket m.engine key) v.store,
  )

  pub value_pointer-is_some :
      (found : Option (MapEntry K V)) → not (is_some found) ≡ not (is_some (value_pointer found))
  unfolding value_pointer
  value_pointer-is_some none = refl
  value_pointer-is_some (some entry) = refl

  module _ (key : K) (value : V) (updater : Option (V → V → V)) where
    abbrev pub renew : MapEntry K V → MapEntry K V
    renew old = record old { value = updated updater old.value value }

    abbrev pub fresh : MapEntry K V
    fresh = record { key = key; value = value }

    unfoldable pub pushed : List (MapEntry K V) → List (MapEntry K V)
    pushed = insert (at key) renew fresh

    pushed_self :
        same key key ≡ true
        → (xs : List (MapEntry K V))
        → value_pointer (find? (at key) (pushed xs))
          ≡ some (merged updater value (value_pointer (find? (at key) xs)))
    unfolding pushed merged value_pointer
    pushed_self itself xs =
        rw (find?-insert_self (at key) renew fresh (λ x e. e) itself xs)
          (elim (Option-cases (find? (at key) xs)) [
            | inl missing ↦ rw missing
            | inr (entry, there) ↦ rw there
          ])

    pushed-other :
        (engine : HashEngine K) (equality : IsEquality same engine) (other : K)
        (xs : List (MapEntry K V))
        → same key other ≡ false
        → find? (at other) (pushed xs) ≡ find? (at other) xs
    unfolding pushed
    pushed-other engine equality other xs differ =
        find?-insert_other (at key) (at other) renew fresh (λ x e. refl)
          (λ x e. alike same engine equality x.key key e other ∙ differ) differ xs

    -- The lookup in the row lists after the push.
    pub lists-pushed :
        (engine : HashEngine K) (equality : IsEquality same engine)
        (lists : ℕ → List (MapEntry K V)) (other : K)
        → value_pointer (
            find? (at other) (
              update lists
                (bucket engine key)
                (pushed (lists (bucket engine key)))
                (bucket engine other)))
          ≡ (if same key other
              then some (
                  merged updater value (value_pointer (find? (at key) (lists (bucket engine key)))))
              else value_pointer (find? (at other) (lists (bucket engine other))))
    lists-pushed engine equality lists other = elim (Bool-cases (same key other)) [
      | inl equal ↦
          let as_key : at other ≡ at key =
            λ i entry. same_as same engine equality key other equal i entry.key in
          rw (equal, as_key, sym (equality.hashed key other equal), ==-refl (bucket engine key))
            (pushed_self (equality.reflexive key) (lists (bucket engine key)))
      | inr differ ↦ elim (Bool-cases (bucket engine key == bucket engine other)) [
        | inl collide ↦ rw (
          differ,
          collide,
          pushed-other engine equality other (lists (bucket engine key)) differ,
          (==_iff (bucket engine key) (bucket engine other)).0 collide,
        )
        | inr apart ↦ rw (differ, apart)
      ]
    ]

    module _ (grants : ℕ → Bool) (granted : (n : ℕ) → grants n ≡ true) where
      -- Let `operator==` of the keys be an equivalence, equal keys have the same hash code, and the
      -- allocator grant what it asks for. Then `pushValue` on a map returns a map. In it every key
      -- equal to the one that was pushed has the value that was pushed, merged with its old one if it
      -- had one, every other key has what it had, and the flag says whether the key was new.
      pub push_value-get_value :
          (m : HashMap K V)
          → IsMap m
          → IsEquality same m.engine
          → Returns
              (λ (m', added).
                IsMap m'
                × (ok added ≡ (do old ← get_value same m key; ok (not (is_some old))))
                × ((other : K)
                    → get_value same m' other ≡ (
                        if same key other
                        then (do old ← get_value same m key; ok (some (merged updater value old)))
                        else get_value same m other)))
              (push_value same grants m key value updater)
      unfolding push_value pushed
      push_value-get_value m v equality =
          let found = λ (k : K). get_value-find? m v k in
          rw (hash_index-ok m.engine key v.buckets) (
            Returns-bind
              (push_entry-insert (at key) renew fresh grants granted v.lists m.matrix
                (bucket m.engine key) v.store)
              λ (matrix, added) (store, flag).
                let v' : IsMap (record m { matrix = matrix }) = record {
                  lists = _;
                  store = store;
                  buckets = v.buckets;
                } in
                returns (
                  v',
                  rw (found key) (
                      ap ok (
                        flag
                        ∙ value_pointer-is_some (find? (at key) (v.lists (bucket m.engine key))))),
                  λ other.
                      rw
                        (
                          get_value-find? (record m { matrix = matrix }) v' other,
                          found key,
                          found other,
                        )
                        (ap ok (lists-pushed m.engine equality v.lists other)
                          ∙ ok-if (same key other) _ _),
                ))
