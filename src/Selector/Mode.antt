-- ===== src/Selector/Mode.antt =====
-- selector/mode.go: the choice of a provider. An int64 is its bit pattern.
pub mod Rotation
mod Runs
use dubbogo.Base.{
  ℕ, zero, suc, ◌+◌, ◌-◌, ◌%◌, ◌^◌, Option, none, some, List, [], ◌∷◌, ltb, ◌==◌, if◌then◌else◌,
  length, get_elem?,
}

-- The functions that a mode stands for.
pub data Mode : Type 0 where
  sm_random sm_round_robin : Mode

pub data Choice {ℓ} (A : Type ℓ) : Type ℓ where
  chosen : A → Choice A
  none_available : Choice A
  index_panic : Choice A

-- `a % n` on int64, for a positive `n`: the sign is that of `a`, and a negative index panics.
-- The result is `none` where it is negative.
abbrev pub rem64 : ℕ → ℕ → Option ℕ
rem64 a n = if ltb a (2 ^ 63) then some (a % n) else if (2 ^ 64 - a) % n == 0 then some 0 else none

module _ {ℓ} {A : Type ℓ} where
  abbrev pub pick : Option A → Choice A
  pick none = index_panic
  pick (some s) = chosen s

  -- `services[i]`
  abbrev pub at_index : List A → Option ℕ → Choice A
  at_index services none = index_panic
  at_index services (some i) = pick (get_elem? services i)

  -- `random`, with the number that `rand.Int()` gives.
  unfoldable pub random : List A → ℕ → ℕ → Choice A
  random services r id =
      if length services == 0
      then none_available
      else at_index services (rem64 ((r + id) % 2 ^ 64) (length services))

  -- `roundRobin`: a call with the counter `i` returns the provider and the next counter.
  unfoldable pub round_robin : List A → ℕ → ℕ → Choice A × ℕ
  round_robin services i id =
      if length services == 0
      then (none_available, i)
      else (at_index services (rem64 ((id + i) % 2 ^ 64) (length services)), (i + 1) % 2 ^ 64)

  -- The choices of the next calls, all for one request, as `Call` retries it.
  unfoldable pub attempts : List A → ℕ → ℕ → ℕ → List (Choice A)
  attempts services id i zero = []
  attempts services id i (suc retries) =
      (round_robin services i id).0 ∷ attempts services id (round_robin services i id).1 retries

-- `SelectorNext`, and the table of the modes' functions: a mode out of range is taken for
-- `SM_Random`, and so are the two ends.
unfoldable pub selector_next : ℕ → Mode
selector_next mode =
    let m = if ltb 3 mode then 1 else mode in if m == 2 then sm_round_robin else sm_random
