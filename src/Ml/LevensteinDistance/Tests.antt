-- ===== src/Ml/LevensteinDistance/Tests.antt =====
-- The edit distances of concrete words.
use premir_cpp.Common.{
  ℕ, ◌+◌, ◌≡◌, ◌≤◌, refl, true, List, [], ◌∷◌, arith, ◌==◌, if◌then◌else◌, Bool,
}
use premir_cpp.Common.Run.{ok, undefined, Returns}
use premir_cpp.Ml.LevensteinDistance.{wld, wld_optimazed}
use premir_cpp.Ml.LevensteinDistance.Script.{Script}
use premir_cpp.Ml.LevensteinDistance.Wld.{wld-least}
use premir_cpp.Ml.LevensteinDistance.Optimazed.{wld_optimazed-wld}

abbrev all_granted : ℕ → Bool
all_granted bytes = true

abbrev monday : List ℕ
monday = b'm' ∷ b'o' ∷ b'n' ∷ b'd' ∷ b'a' ∷ b'y' ∷ []

abbrev sunday : List ℕ
sunday = b's' ∷ b'u' ∷ b'n' ∷ b'd' ∷ b'a' ∷ b'y' ∷ b's' ∷ []

wld_days : wld monday sunday all_granted 8 8 6 7 ≡ ok 3
unfolding wld
wld_days = refl

wld_optimazed_days : wld_optimazed monday sunday 6 7 ≡ ok 3
unfolding wld_optimazed
wld_optimazed_days = refl

wld_empty : wld [] [] all_granted 8 8 0 0 ≡ ok 0
unfolding wld
wld_empty = refl

wld-least_example :
    Returns
      (λ d. Script monday sunday 6 7 d × ((k : ℕ) → Script monday sunday 6 7 k → d ≤ k))
      (wld monday sunday all_granted 8 8 6 7)
wld-least_example =
    wld-least all_granted (λ bytes. refl) 8 8 monday sunday 6 7 (omega arith) (omega arith)

wld_optimazed-wld_example :
    wld_optimazed monday sunday 6 7
    ≡ (if 6 + 7 == 0 then undefined else wld monday sunday all_granted 8 8 6 7)
wld_optimazed-wld_example =
    wld_optimazed-wld all_granted (λ bytes. refl) 8 8 monday sunday 6 7 (omega arith) (omega arith)
