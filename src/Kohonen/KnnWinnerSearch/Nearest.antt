-- ===== src/Kohonen/KnnWinnerSearch/Nearest.antt =====
-- The winners are the nearest neurons, in order.
use mathlib.Core.List.{append-nil, append_assoc, perm_middle}
use mathlib.Core.List.Perm
use premir_cpp.Common.{
  dec_lt, ℕ, zero, suc, ◌≤◌, ◌<◌, ◌≡◌, refl, sym, ap, ◌∙◌, subst, true, List, [], ◌∷◌, ◌++◌, some,
  map, Perm, arith, get_elem?, length, take, drop, replicate, length-replicate,
}
use premir_cpp.Common.All.{
  All, All-append, All-both, All-replicate, All-weaken, All-take, take-append-drop,
}
use premir_cpp.Common.Run.{ok, Returns, returns, Returns-bind, Returns-weaken}
use premir_cpp.Utils.Memory.{Block}
use premir_cpp.Kohonen.EuclideanWinnerSearch.{Double, DataSample, WinnerInfo}
use premir_cpp.Kohonen.EuclideanWinnerSearch.Distance.{
  rank, total, skips, distance-Measured, Measured,
}
use premir_cpp.Kohonen.EuclideanWinnerSearch.Nearest.{AllFit, not_all_skipped}
use premir_cpp.Kohonen.KnnWinnerSearch.{insert_winner, search_from, search}
use premir_cpp.Kohonen.KnnWinnerSearch.Clear.{no_winner, clear_winners-eq}
use premir_cpp.Kohonen.KnnWinnerSearch.Place.{
  number, Ahead, Ordered, place, place-perm, All-place, place-Ordered, take-Ordered,
  take-drop-Ahead, place-keeps-Ahead, take-place-bounded, take-place-far,
}
use premir_cpp.Kohonen.KnnWinnerSearch.Insert.{insert_winner-place, written, length-take-place}

module _ {D : Type 0} (double : Double D) where
  -- `ws` are the first of the candidates in the order of `Ahead`.
  pub record Nearest (candidates ws : List (WinnerInfo D)) : Type 0 where
    pub others : List (WinnerInfo D)
    pub all : Perm (ws ++ others) candidates
    pub ordered : Ordered double ws
    pub before : All (λ w. All (Ahead double w) others) ws

  -- Between two rounds of the search, before neuron `r`.
  record Searched (k r : ℕ) (candidates ws : List (WinnerInfo D)) : Type 0 where
    nearest : Nearest candidates ws
    count : length ws ≡ k
    earlier : All (λ w. number w.index ≤ r) ws
    bounded : All (λ w. rank double w.diff ≤ rank double double.max_value) ws

  place-Nearest :
      (x : WinnerInfo D) (candidates ws : List (WinnerInfo D))
      → All (λ w. number w.index ≤ number x.index) ws
      → Nearest candidates ws
      → Nearest (x ∷ candidates) (take (length ws) (place double x ws))
  place-Nearest x candidates ws later n =
      let all_placed = place double x ws in
      let dropped = drop (length ws) all_placed in
      let sorted : Ordered double all_placed = place-Ordered double x ws later n.ordered in
      let regroup : all_placed ++ n.others ≡ take (length ws) all_placed ++ (dropped ++ n.others) =
        ap (λ vs. vs ++ n.others) (sym (take-append-drop (length ws) all_placed))
        ∙ append_assoc (take (length ws) all_placed) dropped n.others in
      record {
        others = dropped ++ n.others;
        all =
            Perm.trans (subst (λ vs. Perm vs (all_placed ++ n.others)) regroup (Perm.refl _)) (
              Perm.trans (Perm.append_right n.others (place-perm double x ws)) (Perm.cons x n.all));
        ordered = take-Ordered double (length ws) all_placed sorted;
        before =
            All-both _ _ _ (take (length ws) all_placed)
              (λ w near far. All-append (Ahead double w) dropped n.others near far)
              (take-drop-Ahead double (length ws) all_placed sorted)
              (place-keeps-Ahead double x ws n.others later n.before);
      }

  place-Searched :
      (k r : ℕ) (d : D) (candidates ws : List (WinnerInfo D))
      → Searched k r candidates ws
      → Searched k
          (suc r)
          (record { diff = d; index = some r } ∷ candidates)
          (take (length ws) (place double (record { diff = d; index = some r }) ws))
  place-Searched k r d candidates ws s =
      let x : WinnerInfo D = record { diff = d; index = some r } in
      let later : All (λ w. number w.index ≤ suc r) ws =
        All-weaken _ _ ws (λ w h. omega (arith, h)) s.earlier in
      record {
        nearest = place-Nearest x candidates ws later s.nearest;
        count = length-take-place double x ws ∙ s.count;
        earlier =
            All-take _ (length ws) (place double x ws)
              (All-place double (λ w. number w.index ≤ suc r) x ws (omega arith) later);
        bounded = take-place-bounded double (rank double double.max_value) x ws s.bounded;
      }

  -- It makes no difference to the winners that a long distance is not measured to its end.
  same_winners :
      (whole difference : D) (r : ℕ) (ws : List (WinnerInfo D))
      → Measured double double.max_value whole difference
      → All (λ w. rank double w.diff ≤ rank double double.max_value) ws
      → take (length ws) (place double (record { diff = difference; index = some r }) ws)
        ≡ take (length ws) (place double (record { diff = whole; index = some r }) ws)
  same_winners whole difference r ws m bounded =
      elim (dec_lt (rank double double.max_value) (rank double whole)) [
        | yes far ↦
            take-place-far double (rank double double.max_value) _ ws bounded (m.far_lt far)
            ∙ sym (take-place-far double (rank double double.max_value) _ ws bounded far)
        | no near ↦
            ap (λ d. take (length ws) (place double (record { diff = d; index = some r }) ws))
              (m.near_eq (omega (arith, near)))
      ]

  -- Before the first round.
  none-Searched :
      (k : ℕ) → Searched k 0 (replicate k (no_winner double)) (replicate k (no_winner double))
  none-Searched k = record {
    nearest = record {
      others = [];
      all =
          subst (λ vs. Perm vs (replicate k (no_winner double))) (sym (append-nil _)) (Perm.refl _);
      ordered = replicate-Ordered k;
      before = All-replicate _ k (no_winner double) tt;
    };
    count = length-replicate k (no_winner double);
    earlier = All-replicate _ k (no_winner double) (omega arith);
    bounded = All-replicate _ k (no_winner double) (omega arith);
  }
    where
      replicate-Ordered : (n : ℕ) → Ordered double (replicate n (no_winner double))
      replicate-Ordered zero = tt
      replicate-Ordered (suc n) = (
        All-replicate (Ahead double (no_winner double)) n (no_winner double)
            (record { near = omega arith; tie = λ e. omega arith }),
        replicate-Ordered n,
      )

module _ {D : Type 0} (double : Double D) (ss : List (DataSample D)) where
  -- The neurons from `r` on with their distances from the samples.
  abbrev pub entries : ℕ → List (List D) → List (WinnerInfo D)
  entries r [] = []
  entries r (cs ∷ rows) =
      record { diff = total double cs ss double.nought; index = some r } ∷ entries (suc r) rows

  -- The block begins with winners that are nearest, and nothing behind them is changed.
  pub record Found (k : ℕ) (candidates : List (WinnerInfo D)) (spare block : Block (WinnerInfo D))
      : Type 0 where
    pub winners : List (WinnerInfo D)
    pub count : length winners ≡ k
    pub split : block ≡ map some winners ++ spare
    pub nearest : Nearest double candidates winners

  pass_over :
      (k r : ℕ) (cs : List D) (rows : List (List D)) (candidates : List (WinnerInfo D))
      (spare block : Block (WinnerInfo D))
      → Found k
          (entries (suc r) rows
            ++ record { diff = total double cs ss double.nought; index = some r } ∷ candidates)
          spare
          block
      → Found k (entries r (cs ∷ rows) ++ candidates) spare block
  pass_over k r cs rows candidates spare block f = record {
    winners = f.winners;
    count = f.count;
    split = f.split;
    nearest = record {
      others = f.nearest.others;
      all = Perm.trans f.nearest.all (perm_middle (entries (suc r) rows) candidates);
      ordered = f.nearest.ordered;
      before = f.nearest.before;
    };
  }

  search_from-Found :
      (rows : List (List D)) (k r : ℕ) (candidates ws : List (WinnerInfo D))
      (spare : Block (WinnerInfo D))
      → AllFit ss rows
      → skips ss < length ss
      → Searched double k r candidates ws
      → Returns
          (λ (fine, block). (fine ≡ true) × Found k (entries r rows ++ candidates) spare block)
          (search_from double (map (map some) rows) r ss (length ss) k (map some ws ++ spare))
  unfolding search_from
  search_from-Found [] k r candidates ws spare fit some_used s =
      returns (refl, record { winners = ws; count = s.count; split = refl; nearest = s.nearest })
  search_from-Found (cs ∷ rows) k r candidates ws spare (same, fit) some_used s =
      Returns-bind (distance-Measured double cs ss double.max_value same)
        (λ (fine, difference) (fine_eq, m).
          let used : fine ≡ true = fine_eq ∙ not_all_skipped double ss some_used in
          let whole : D = total double cs ss double.nought in
          let x : WinnerInfo D = record { diff = whole; index = some r } in
          let inserted : insert_winner double k difference r (map some ws ++ spare)
              ≡ ok (map some (take (length ws) (place double x ws)) ++ spare) =
            ap (λ n. insert_winner double n difference r (map some ws ++ spare)) (sym s.count)
            ∙ insert_winner-place double ws spare difference r
            ∙ ap (λ vs. ok (map some vs ++ spare))
                (same_winners double whole difference r ws m s.bounded) in
          rw (used, inserted)
            (Returns-weaken
              (search_from-Found rows k (suc r) (x ∷ candidates)
                (take (length ws) (place double x ws)) spare fit some_used
                (place-Searched double k r whole candidates ws s))
              (λ result (fine', f). (fine', pass_over k r cs rows candidates spare result.1 f))))

  -- `search` over neurons with as many codes as there are samples, of which some is not skipped,
  -- for at least one winner in an array with room for them, returns true. The array then begins
  -- with that many winners, the first of all neurons and of as many empty places by their distances
  -- from the samples, in order; an empty place is as far as the greatest `double`, and of neurons
  -- that are equally far, the later comes first. The rest of the array is unchanged.
  pub search-Found :
      (rows : List (List D)) (k : ℕ) (winners : Block (WinnerInfo D))
      → AllFit ss rows
      → skips ss < length ss
      → 0 < k
      → k ≤ length winners
      → Returns
          (λ (fine, block).
            (fine ≡ true)
            × Found k (entries 0 rows ++ replicate k (no_winner double)) (drop k winners) block)
          (search double (map (map some) rows) ss (length ss) k winners)
  unfolding search
  search-Found rows k winners fit some_used wanted room =
      let none_yet : List (WinnerInfo D) = replicate k (no_winner double) in
      rw (clear_winners-eq double k winners room) (
        Returns-bind
          (search_from-Found rows k 0 none_yet none_yet (drop k winners) fit some_used
            (none-Searched double k))
          (λ (fine, block) (fine_eq, f).
            let (first, e) =
              written double f.winners (drop k winners) 0 (omega (arith, f.count, wanted)) in
            let there : get_elem? block 0 ≡ some (some first) =
              ap (λ b. get_elem? b 0) f.split ∙ e in
            rw (fine_eq, there) (returns (refl, f))))
