-- ===== src/Common/Run.antt =====
-- How a call of the C++ code ends, and the rules for calls that end well.
use Prim.Native.Nat.{ℕ, zero, suc, ◌+◌, ◌≤◌, ◌<◌}
use native.Mathlib.Omega.{arith}
use mathlib.Core.Path.{◌≡◌, refl, ap, subst}
use mathlib.Core.Bool.{Bool, true, false}
use mathlib.Core.Option.{Option, none, some}
use premir_cpp.Common.Tests.{if◌then◌else◌}

-- The exceptions that the code throws.
pub data Error : Type 0 where
  out_of_memory buffer_overfull io_error : Error

-- `undefined` is undefined behaviour: a read or write out of range, through a null or dangling
-- pointer, or of an object that was never initialised. `out_of_fuel` is the model's own.
pub data Run {ℓ} (A : Type ℓ) : Type ℓ where
  ok : A → Run A
  throws : Error → Run A
  undefined out_of_fuel : Run A

infixl 5 ◌>>=◌ ◌>>◌
abbrev pub ◌>>=◌ {ℓ ℓ'} : {S : Type ℓ} {T : Type ℓ'} → Run S → (S → Run T) → Run T
ok result >>= rest = rest result
throws error >>= rest = throws error
undefined >>= rest = undefined
out_of_fuel >>= rest = out_of_fuel

abbrev pub ◌>>◌ {ℓ ℓ'} : {S : Type ℓ} {T : Type ℓ'} → Run S → Run T → Run T
first >> rest = first >>= λ _. rest

-- The value that must be there.
abbrev pub defined {ℓ} : {A : Type ℓ} → Option A → Run A
defined (some a) = ok a
defined none = undefined

-- The call returns, and its result is good.
pub data Returns {ℓ ℓ'} {S : Type ℓ} (Good : S → Type ℓ') : Run S → Type (ℓ ⊔ ℓ') where
  returns : {result : S} → Good result → Returns Good (ok result)

module _ {ℓ ℓ'} {S : Type ℓ} {Good : S → Type ℓ'} where
  pub Returns-result :
      {call : Run S} → Returns Good call → (result : S) × (call ≡ ok result) × Good result
  Returns-result (returns good) = (_, refl, good)

  pub Returns-cond :
      {call other : Run S} (test : Bool)
      → (test ≡ true → Returns Good call)
      → (test ≡ false → Returns Good other)
      → Returns Good (if test then call else other)
  Returns-cond true taken skipped = taken refl
  Returns-cond false taken skipped = skipped refl

  pub Returns-weaken {κ} :
      {Fair : S → Type κ} {call : Run S}
      → Returns Good call
      → ((result : S) → Good result → Fair result)
      → Returns Fair call
  Returns-weaken (returns good) weaken = returns (weaken _ good)

  pub Returns-bind {κ κ'} :
      {T : Type κ} {Fair : T → Type κ'} {call : Run S} {rest : S → Run T}
      → Returns Good call
      → ((result : S) → Good result → Returns Fair (rest result))
      → Returns Fair (call >>= rest)
  Returns-bind (returns good) next = next _ good

-- A counted loop: `rounds` rounds of `body`, the first at index `i`.
unfoldable pub for {ℓ} : {S : Type ℓ} → ℕ → ℕ → (ℕ → S → Run S) → S → Run S
for zero i body s = ok s
for (suc rounds) i body s = body i s >>= λ t. for rounds (suc i) body t

-- The rule for such a loop: what holds before round `k` of the body holds after it for `suc k`.
pub for-Returns {ℓ κ} :
    {S : Type ℓ} (Inv : ℕ → S → Type κ) (body : ℕ → S → Run S) (first stop rounds i : ℕ) (s : S)
    → first ≤ i
    → i + rounds ≡ stop
    → Inv i s
    → ((k : ℕ) (t : S) → first ≤ k → k < stop → Inv k t → Returns (Inv (suc k)) (body k t))
    → Returns (Inv stop) (for rounds i body s)
unfolding for
for-Returns Inv body first stop zero i s le e now step =
    returns (subst (λ k. Inv k s) (omega arith) now)
for-Returns Inv body first stop (suc rounds) i s le e now step =
    Returns-bind (step i s le (omega arith) now) λ t next.
      for-Returns Inv body first stop rounds (suc i) t (omega arith) (omega arith) next step

pub Returns-eq {ℓ} : {A : Type ℓ} {m : Run A} {a : A} → Returns (λ b. b ≡ a) m → m ≡ ok a
Returns-eq (returns e) = ap ok e

-- The same for a loop from 1 to `n`, counted from the round before.
pub for_one-Returns {ℓ κ} :
    {S : Type ℓ} (Inv : ℕ → S → Type κ) (body : ℕ → S → Run S) (n : ℕ) (s : S)
    → Inv 1 s
    → ((k : ℕ) (t : S) → k < n → Inv (suc k) t → Returns (Inv (suc (suc k))) (body (suc k) t))
    → Returns (Inv (suc n)) (for n 1 body s)
for_one-Returns {S} Inv body n s now step =
    for-Returns Inv body 1 (suc n) n 1 s (omega arith) (omega arith) now next
  where
    next : (k : ℕ) (t : S) → 1 ≤ k → k < suc n → Inv k t → Returns (Inv (suc k)) (body k t)
    next zero t lo hi h = absurd (omega arith)
    next (suc k) t lo hi h = step k t (omega arith) h

pub ok-if {ℓ} :
    {A : Type ℓ} (b : Bool) (x y : A) → ok (if b then x else y) ≡ (if b then ok x else ok y)
ok-if true x y = refl
ok-if false x y = refl

-- What comes after a call that returns has undefined behaviour, and so has the whole.
pub undefined-after {ℓ ℓ' κ} :
    {S : Type ℓ} {T : Type ℓ'} {Good : S → Type κ} {call : Run S} {rest : S → Run T}
    → Returns Good call
    → ((result : S) → Good result → rest result ≡ undefined)
    → (call >>= rest) ≡ undefined
undefined-after (returns good) next = next _ good

-- A loop that has undefined behaviour in its first round.
pub for-undefined {ℓ} :
    {S : Type ℓ} (body : ℕ → S → Run S) (n i : ℕ) (s : S)
    → 0 < n
    → body i s ≡ undefined
    → for n i body s ≡ undefined
unfolding for
for-undefined body zero i s some_round e = absurd (omega arith)
for-undefined body (suc n) i s some_round e = ap (λ r. r >>= λ t. for n (suc i) body t) e
