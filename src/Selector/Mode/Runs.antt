-- ===== src/Selector/Mode/Runs.antt =====
-- The choice of a provider at concrete lists.
use dubbogo.Base.{ℕ, ◌-◌, ◌^◌, ◌≡◌, refl, List, [], ◌∷◌, arith}
use dubbogo.Selector.Mode.{random, attempts, chosen, index_panic}
use dubbogo.Selector.Mode.Rotation.{attempts_rotation}

abbrev three : List ℕ
three = 7 ∷ 8 ∷ 9 ∷ []

random_third : random three 5 3 ≡ chosen 9
unfolding random
random_third = refl

-- The sum of the random number and the request's number may leave the int64 range.
random_overflow : random three (2 ^ 63 - 1) 2 ≡ index_panic
unfolding random
random_overflow = refl

attempts_rotation_example : attempts three 4 0 3 ≡ chosen 8 ∷ chosen 9 ∷ chosen 7 ∷ []
attempts_rotation_example = attempts_rotation three 4 (omega arith) (omega arith)
