-- ===== src/Utils/HashSet/Laws.antt =====
-- `HashSet` of src/utils/HashSet.h as a set of values, which `operator==` need not tell apart.
use premir_cpp.Common.{
  ℕ, ◌<◌, ◌≡◌, sym, ap, ◌∙◌, Bool, true, false, not, inl, inr, List, [], Option, none, some, ◌==◌,
  ==-refl, if◌then◌else◌, is_some, Bool-cases, ==_iff,
}
use premir_cpp.Common.Run.{ok, ◌>>=◌, Returns, returns, Returns-bind, ok-if}
use premir_cpp.Utils.HashEngine.{HashEngine, bucket, hash_index-ok}
use premir_cpp.Utils.HashEngine.Equality.{IsEquality, alike, same_as}
use premir_cpp.Utils.RdMatrix.Prepare.{IsStore, new-IsStore, update}
use premir_cpp.Utils.Bucket.Laws.{look_up-find?, push_entry-insert}
use premir_cpp.Utils.Bucket.Search.{find?, insert, find?-insert_self, find?-insert_other}
use premir_cpp.Utils.HashSet.{HashSet, new, renewed, push, get_value, contains}

-- The matrix is a store of lists of values, and there is at least one bucket.
pub record IsHashSet {K : Type 0} (s : HashSet K) : Type 0 where
  pub lists : ℕ → List K
  pub store : IsStore lists s.matrix
  pub buckets : 0 < s.engine.index_size

module _ {K : Type 0} where
  new-IsHashSet :
      (engine : HashEngine K) (t row : ℕ) → 0 < engine.index_size → IsHashSet (new engine t row)
  unfolding new
  new-IsHashSet engine t row h = record { lists = λ r. []; store = new-IsStore t row; buckets = h }

module _ {K : Type 0} (same : K → K → Bool) where
  abbrev at : K → K → Bool
  at value old = same old value

  get_value-find? :
      (s : HashSet K) (v : IsHashSet s) (value : K)
      → get_value same s value ≡ ok (find? (at value) (v.lists (bucket s.engine value)))
  unfolding get_value
  get_value-find? s v value = rw (
    hash_index-ok s.engine value v.buckets,
    look_up-find? (at value) v.lists s.matrix (bucket s.engine value) v.store,
  )

  -- The set contains a value if `getValue` finds one.
  contains-get_value :
      (s : HashSet K) (v : IsHashSet s) (value : K)
      → contains same s value ≡ (do found ← get_value same s value; ok (is_some found))
  unfolding contains
  contains-get_value s v value = rw (
    get_value-find? s v value,
    hash_index-ok s.engine value v.buckets,
    look_up-find? (at value) v.lists s.matrix (bucket s.engine value) v.store,
  )

  -- An updater that leaves a value equal to the one that is pushed.
  abbrev pub Keeps : Option (K → K → K) → K → Type 0
  Keeps updater value =
      (old : K) → same old value ≡ true → same (renewed updater value old) value ≡ true

  -- What the set keeps for a value that is pushed, by what it had for it.
  abbrev pub stored : Option (K → K → K) → K → Option K → K
  stored updater value found = elim found [ none ↦ value | some old ↦ renewed updater value old ]

  module _ (engine : HashEngine K) (equality : IsEquality same engine) (value : K)
      (updater : Option (K → K → K)) (keeps : Keeps updater value) where
    pushed : List K → List K
    pushed = insert (at value) (renewed updater value) value

    pushed_self :
        (xs : List K)
        → find? (at value) (pushed xs) ≡ some (stored updater value (find? (at value) xs))
    unfolding pushed
    pushed_self =
        find?-insert_self (at value) (renewed updater value) value keeps (equality.reflexive value)

    pushed-other :
        (other : K) (xs : List K)
        → same value other ≡ false
        → find? (at other) (pushed xs) ≡ find? (at other) xs
    unfolding pushed
    pushed-other other xs differ =
        let like_value = alike same engine equality in
        find?-insert_other (at value) (at other) (renewed updater value) value
          (λ x e.
            like_value (renewed updater value x) value (keeps x e) other
            ∙ sym (like_value x value e other))
          (λ x e. like_value x value e other ∙ differ) differ xs

    lists-pushed :
        (lists : ℕ → List K) (other : K)
        → find? (at other) (
            update lists
              (bucket engine value)
              (pushed (lists (bucket engine value)))
              (bucket engine other))
          ≡ (if same value other
              then some (stored updater value (find? (at value) (lists (bucket engine value))))
              else find? (at other) (lists (bucket engine other)))
    lists-pushed lists other = elim (Bool-cases (same value other)) [
      | inl equal ↦
          rw
            (
              equal,
              same_as same engine equality value other equal,
              sym (equality.hashed value other equal),
              ==-refl (bucket engine value),
            )
            (pushed_self (lists (bucket engine value)))
      | inr differ ↦ elim (Bool-cases (bucket engine value == bucket engine other)) [
        | inl collide ↦ rw (
          differ,
          collide,
          pushed-other other (lists (bucket engine value)) differ,
          (==_iff (bucket engine value) (bucket engine other)).0 collide,
        )
        | inr apart ↦ rw (differ, apart)
      ]
    ]

  module _ (grants : ℕ → Bool) (granted : (n : ℕ) → grants n ≡ true) where
    -- Let `operator==` be an equivalence, equal values have the same hash code, the updater leave a
    -- value equal to the one that is pushed, and the allocator grant what it asks for. Then `push`
    -- on a set returns a set. For a value equal to the pushed one it has what the updater made of
    -- the value it had for it, or, if it had none, the pushed value; for any other value it has what
    -- it had; and the flag says whether it had none.
    pub push-get_value :
        (s : HashSet K) (value : K) (updater : Option (K → K → K))
        → IsHashSet s
        → IsEquality same s.engine
        → Keeps updater value
        → Returns
            (λ (s', added).
              IsHashSet s'
              × (ok added ≡ (do old ← contains same s value; ok (not old)))
              × ((other : K)
                  → get_value same s' other ≡ (
                      if same value other
                      then (do old ← get_value same s value; ok (some (stored updater value old)))
                      else get_value same s other)))
            (push same grants s value updater)
    unfolding push pushed
    push-get_value s value updater v equality keeps =
        let found = λ (k : K). get_value-find? s v k in
        rw (hash_index-ok s.engine value v.buckets) (
          Returns-bind
            (push_entry-insert (at value) (renewed updater value) value grants granted v.lists
              s.matrix (bucket s.engine value) v.store)
            λ (matrix, added) (store, flag).
              let v' : IsHashSet (record s { matrix = matrix }) = record {
                lists = _;
                store = store;
                buckets = v.buckets;
              } in
              returns (
                v',
                rw (contains-get_value s v value, found value) (ap ok flag),
                λ other.
                    rw
                      (
                        get_value-find? (record s { matrix = matrix }) v' other,
                        found value,
                        found other,
                      )
                      (ap ok (lists-pushed s.engine equality value updater keeps v.lists other)
                        ∙ ok-if (same value other) _ _),
              ))
