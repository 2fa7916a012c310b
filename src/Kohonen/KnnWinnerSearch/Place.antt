-- ===== src/Kohonen/KnnWinnerSearch/Place.antt =====
-- Where a neuron goes in a list of winners that are in order.
use mathlib.Core.List.Perm
use premir_cpp.Common.{
  ℕ, zero, suc, ◌-◌, ◌≤◌, ◌<◌, ◌≡◌, refl, ap, true, false, inl, inr, List, [], ◌∷◌, Option, none,
  some, Perm, arith, ltb, ◌==◌, if◌then◌else◌, get_elem?, length, take, drop, Bool-cases,
}
use premir_cpp.Common.All.{All, All-take, All-drop, All-weaken}
use premir_cpp.Kohonen.EuclideanWinnerSearch.{Double, WinnerInfo}
use premir_cpp.Kohonen.EuclideanWinnerSearch.Distance.{rank}

-- Later neurons have a greater number; no neuron has the least.
abbrev pub number : Option ℕ → ℕ
number none = 0
number (some r) = suc r

module _ {D : Type 0} (double : Double D) where
  -- `a` comes no later than `b`: it is nearer, or as near and the later neuron.
  pub record Ahead (a b : WinnerInfo D) : Type 0 where
    pub near : rank double a.diff ≤ rank double b.diff
    pub tie : rank double a.diff ≡ rank double b.diff → number b.index ≤ number a.index

  abbrev pub Ordered : List (WinnerInfo D) → Type 0
  Ordered [] = Unit
  Ordered (a ∷ ws) = All (Ahead a) ws × Ordered ws

  Ahead-trans : (a b c : WinnerInfo D) → Ahead a b → Ahead b c → Ahead a c
  Ahead-trans a b c h k = record {
    near = omega (arith, h.near, k.near);
    tie = λ e.
        let ab : rank double a.diff ≡ rank double b.diff = omega (arith, h.near, k.near, e) in
        let bc : rank double b.diff ≡ rank double c.diff = omega (arith, h.near, k.near, e) in
        omega (arith, h.tie ab, k.tie bc);
  }

  -- Among ordered winners, `x` goes before the first that is no nearer.
  abbrev pub place : WinnerInfo D → List (WinnerInfo D) → List (WinnerInfo D)
  place x [] = x ∷ []
  place x (w ∷ ws) = if double.order.gt x.diff w.diff then w ∷ place x ws else x ∷ w ∷ ws

  abbrev pub position : D → List (WinnerInfo D) → ℕ
  position d [] = 0
  position d (w ∷ ws) = if double.order.gt d w.diff then suc (position d ws) else 0

  pub position_le : (d : D) (ws : List (WinnerInfo D)) → position d ws ≤ length ws
  position_le d [] = omega arith
  position_le d (w ∷ ws) = ground (arith, position_le d ws)

  pub length-place :
      (x : WinnerInfo D) (ws : List (WinnerInfo D)) → length (place x ws) ≡ suc (length ws)
  length-place x [] = refl
  length-place x (w ∷ ws) = ground (arith, length-place x ws)

  pub get_elem?-place :
      (x : WinnerInfo D) (ws : List (WinnerInfo D)) (i : ℕ)
      → get_elem? (place x ws) i ≡ (
          if ltb i (position x.diff ws)
          then get_elem? ws i
          else if i == position x.diff ws
          then some x
          else get_elem? ws (i - 1))
  get_elem?-place x [] zero = ground arith
  get_elem?-place x [] (suc i) = ground arith
  get_elem?-place x (w ∷ ws) zero = ground arith
  get_elem?-place x (w ∷ ws) (suc zero) = ground (arith, get_elem?-place x ws zero)
  get_elem?-place x (w ∷ ws) (suc (suc i)) = ground (arith, get_elem?-place x ws (suc i))

  pub place-perm : (x : WinnerInfo D) (ws : List (WinnerInfo D)) → Perm (place x ws) (x ∷ ws)
  place-perm x [] = Perm.refl (x ∷ [])
  place-perm x (w ∷ ws) = elim (Bool-cases (double.order.gt x.diff w.diff)) [
    | inl past ↦ rw past (Perm.trans (Perm.cons w (place-perm x ws)) (Perm.swap x w ws))
    | inr here ↦ rw here (Perm.refl (x ∷ w ∷ ws))
  ]

  pub All-place :
      (P : WinnerInfo D → Type 0) (x : WinnerInfo D) (ws : List (WinnerInfo D))
      → P x
      → All P ws
      → All P (place x ws)
  All-place P x [] here others = (here, tt)
  All-place P x (w ∷ ws) here others = elim (Bool-cases (double.order.gt x.diff w.diff)) [
    | inl past ↦ rw past (others.0, All-place P x ws here others.1)
    | inr stop ↦ rw stop (here, others)
  ]

  -- `w` is nearer than `x`, or is no nearer and not later.
  past-Ahead : (x w : WinnerInfo D) → double.order.gt x.diff w.diff ≡ true → Ahead w x
  past-Ahead x w past =
      let less : rank double w.diff < rank double x.diff =
        ground (arith, double.order.gt_lem x.diff w.diff, past) in
      record { near = omega (arith, less); tie = λ e. absurd (omega (arith, less, e)) }

  stop-Ahead :
      (x w : WinnerInfo D)
      → double.order.gt x.diff w.diff ≡ false
      → number w.index ≤ number x.index
      → Ahead x w
  stop-Ahead x w stop later = record {
    near = ground (arith, double.order.gt_lem x.diff w.diff, stop);
    tie = λ e. later;
  }

  pub place-Ordered :
      (x : WinnerInfo D) (ws : List (WinnerInfo D))
      → All (λ w. number w.index ≤ number x.index) ws
      → Ordered ws
      → Ordered (place x ws)
  place-Ordered x [] later ordered = (tt, tt)
  place-Ordered x (w ∷ ws) later ordered = elim (Bool-cases (double.order.gt x.diff w.diff)) [
    | inl past ↦
        rw past
          (All-place _ x ws (past-Ahead x w past) ordered.0, place-Ordered x ws later.1 ordered.1)
    | inr stop ↦
        let first : Ahead x w = stop-Ahead x w stop later.0 in
        rw stop ((first, All-weaken _ _ ws (λ v k. Ahead-trans x w v first k) ordered.0), ordered)
  ]

  pub take-Ordered : (n : ℕ) (ws : List (WinnerInfo D)) → Ordered ws → Ordered (take n ws)
  take-Ordered zero ws h = tt
  take-Ordered (suc n) [] h = tt
  take-Ordered (suc n) (w ∷ ws) h = (All-take _ n ws h.0, take-Ordered n ws h.1)

  -- The first winners of an ordered list are ahead of the others.
  pub take-drop-Ahead :
      (n : ℕ) (ws : List (WinnerInfo D))
      → Ordered ws
      → All (λ w. All (Ahead w) (drop n ws)) (take n ws)
  take-drop-Ahead zero ws h = tt
  take-drop-Ahead (suc n) [] h = tt
  take-drop-Ahead (suc n) (w ∷ ws) h = (All-drop _ n ws h.0, take-drop-Ahead n ws h.1)

  -- What all winners are ahead of, they are still ahead of once `x` is among them.
  pub place-keeps-Ahead :
      (x : WinnerInfo D) (ws os : List (WinnerInfo D))
      → All (λ w. number w.index ≤ number x.index) ws
      → All (λ w. All (Ahead w) os) ws
      → All (λ w. All (Ahead w) os) (take (length ws) (place x ws))
  place-keeps-Ahead x [] os later before = tt
  place-keeps-Ahead x (w ∷ ws) os later before = elim (Bool-cases (double.order.gt x.diff w.diff)) [
    | inl past ↦ rw past (before.0, place-keeps-Ahead x ws os later.1 before.1)
    | inr stop ↦ rw stop (
      All-weaken _ _ os (λ o k. Ahead-trans x w o (stop-Ahead x w stop later.0) k) before.0,
      All-take _ (length ws) (w ∷ ws) before,
    )
  ]

  pub take-place-bounded :
      (most : ℕ) (x : WinnerInfo D) (ws : List (WinnerInfo D))
      → All (λ w. rank double w.diff ≤ most) ws
      → All (λ w. rank double w.diff ≤ most) (take (length ws) (place x ws))
  take-place-bounded most x [] bounded = tt
  take-place-bounded most x (w ∷ ws) bounded = elim (Bool-cases (double.order.gt x.diff w.diff)) [
    | inl past ↦ rw past (bounded.0, take-place-bounded most x ws bounded.1)
    | inr stop ↦
        let no_more : rank double x.diff ≤ rank double w.diff =
          ground (arith, double.order.gt_lem x.diff w.diff, stop) in
        rw stop (omega (arith, no_more, bounded.0), All-take _ (length ws) (w ∷ ws) bounded)
  ]

  -- A neuron that is too far away drops out, whatever the difference that was measured.
  pub take-place-far :
      (most : ℕ) (x : WinnerInfo D) (ws : List (WinnerInfo D))
      → All (λ w. rank double w.diff ≤ most) ws
      → most < rank double x.diff
      → take (length ws) (place x ws) ≡ ws
  take-place-far most x [] bounded far = refl
  take-place-far most x (w ∷ ws) bounded far =
      let past : double.order.gt x.diff w.diff ≡ true =
        ground (arith, double.order.gt_lem x.diff w.diff, bounded.0, far) in
      rw past (ap (◌∷◌ w) (take-place-far most x ws bounded.1 far))
