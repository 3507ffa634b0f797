-- ===== src/Hessian/Doubles/Runs.antt =====
-- Concrete runs of dates and doubles, and their theorems at concrete inputs.
use dubbogo.Base.{◌≡◌, refl, true, [], ◌==◌}
use dubbogo.Hessian.Values.{Instant, FloatLib}
use dubbogo.Hessian.Doubles.Reads.{whole_millis}

abbrev whole_lib : FloatLib
whole_lib = record { from_int = λ n. n; to_int = λ n. n; same = λ a b. a == b; format = λ n. [] }

-- An instant before 1970, with nanoseconds.
abbrev early : Instant
early = record { before = true; nanos = 1500007 }

early_whole : whole_millis early ≡ record { before = true; nanos = 1000000 }
unfolding whole_millis
early_whole = refl
