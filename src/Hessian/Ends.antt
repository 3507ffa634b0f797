-- ===== src/Hessian/Ends.antt =====
-- The readers of codec/hessian/decode.go end on any input, and never give bytes back to it.
pub mod Chunks
pub mod Texts
pub mod Binaries
pub mod Stops
mod Runs
use dubbogo.Hessian.Values.{FloatLib}
use dubbogo.Hessian.Doubles.{
  or_zero, dec_double_tagged, dec_double, next_bytes, dec_date_tagged, dec_date,
}
use dubbogo.Base.{
  ℕ, ◌≤◌, inl, inr, Bool, true, false, Option, none, some, List, [], ◌∷◌, arith, ltb, if◌then◌else◌,
  Bool-cases, length, length-drop, go_return, Error, Outcome, ok, err, panic, stuck,
}
use dubbogo.Hessian.Reader.{
  Reader, pure, fail, bind, ◌>>=◌, read_tag, read_full, tag_of, read_full_cases,
}
use dubbogo.Hessian.Ints.{dec_int32_tagged, dec_int32, dec_int64_tagged, dec_int64}

-- A call that ended, with at most `n` bytes left.
abbrev pub Ends : {A : Type 0} → ℕ → Outcome A × List ℕ → Type 0
Ends n (ok a, s) = length s ≤ n
Ends n (err e, s) = length s ≤ n
Ends n (panic, s) = length s ≤ n
Ends n (stuck, s) = ⊥

-- A reader that ends on every input.
pub record IsSafe {A : Type 0} (m : Reader A) : Type 0 where
  pub ends : (s : List ℕ) → Ends (length s) (m s)

module _ {A : Type 0} where
  pub Ends-weaken : (m n : ℕ) (r : Outcome A × List ℕ) → Ends m r → m ≤ n → Ends n r
  Ends-weaken m n (ok a, s) h k = omega arith
  Ends-weaken m n (err e, s) h k = omega arith
  Ends-weaken m n (panic, s) h k = omega arith
  Ends-weaken m n (stuck, s) h k = absurd h

  pub pure-IsSafe : (a : A) → IsSafe (pure a)
  pure-IsSafe a = record { ends = λ s. omega arith }

  pub fail-IsSafe : (e : Error) → IsSafe (fail {A = A} e)
  fail-IsSafe e = record { ends = λ s. omega arith }

  pub if-Ends :
      (n : ℕ) (b : Bool) (r q : Outcome A × List ℕ)
      → Ends n r
      → Ends n q
      → Ends n (if b then r else q)
  if-Ends n true r q h k = h
  if-Ends n false r q h k = k

  pub if-IsSafe : (b : Bool) (m k : Reader A) → IsSafe m → IsSafe k → IsSafe (if b then m else k)
  if-IsSafe true m k hm hk = hm
  if-IsSafe false m k hm hk = hk

module _ {A B : Type 0} where
  pub bind-Ends :
      (n : ℕ) (r : Outcome A × List ℕ) (f : A → Reader B)
      → Ends n r
      → ((a : A) (s : List ℕ) → length s ≤ n → Ends n (f a s))
      → Ends n (bind r f)
  bind-Ends n (ok a, s) f h k = k a s h
  bind-Ends n (err e, s) f h k = h
  bind-Ends n (panic, s) f h k = h
  bind-Ends n (stuck, s) f h k = absurd h

  pub then-IsSafe :
      (m : Reader A) (f : A → Reader B) → IsSafe m → ((a : A) → IsSafe (f a)) → IsSafe (m >>= f)
  then-IsSafe m f hm hf = record {
    ends = λ s.
        bind-Ends (length s) (m s) f (hm.ends s)
          (λ a s' h. Ends-weaken (length s') (length s) (f a s') ((hf a).ends s') h);
  }

  -- A reader and a pure function behind it.
  pub map-IsSafe : (m : Reader A) (f : A → B) → IsSafe m → IsSafe (m >>= (λ a. pure (f a)))
  map-IsSafe m f hm = then-IsSafe m (λ a. pure (f a)) hm (λ a. pure-IsSafe (f a))

pub go_return-IsSafe : {A : Type 0} (a : A) (o : Option Error) → IsSafe (λ s. (go_return a o, s))
go_return-IsSafe a none = record { ends = λ s. omega arith }
go_return-IsSafe a (some e) = record { ends = λ s. omega arith }

read_tag-Ends : (s : List ℕ) → Ends (length s) (read_tag s)
read_tag-Ends [] = omega arith
read_tag-Ends (b ∷ s) = omega arith

pub read_tag-IsSafe : IsSafe read_tag
read_tag-IsSafe = record { ends = read_tag-Ends }

pub tag_of-IsSafe : (flag : Option ℕ) → IsSafe (tag_of flag)
tag_of-IsSafe none = read_tag-IsSafe
tag_of-IsSafe (some t) = pure-IsSafe t

read_full-Ends : (n : ℕ) (s : List ℕ) → Ends (length s) (read_full n s)
read_full-Ends n s = elim (read_full_cases n s) [
  | inl (xs, s', e, l, le) ↦ rw e (omega arith)
  | inr e ↦ rw e (omega arith)
]

pub read_full-IsSafe : (n : ℕ) → IsSafe (read_full n)
read_full-IsSafe n = record { ends = read_full-Ends n }

pub ruleset safe = (
  pure-IsSafe, fail-IsSafe, if-IsSafe, map-IsSafe, read_tag-IsSafe, tag_of-IsSafe, read_full-IsSafe,
)

int32-IsSafe : (tag : ℕ) → IsSafe (dec_int32_tagged tag)
unfolding dec_int32_tagged
int32-IsSafe tag = search safe depth 60 fits 4000

pub dec_int32-IsSafe : (flag : Option ℕ) → IsSafe (dec_int32 flag)
unfolding dec_int32
dec_int32-IsSafe flag = then-IsSafe (tag_of flag) dec_int32_tagged (tag_of-IsSafe flag) int32-IsSafe

int64-IsSafe : (tag : ℕ) → IsSafe (dec_int64_tagged tag)
unfolding dec_int64_tagged
int64-IsSafe tag = search (safe, dec_int32-IsSafe) depth 60 fits 4000

pub dec_int64-IsSafe : (flag : Option ℕ) → IsSafe (dec_int64 flag)
unfolding dec_int64
dec_int64-IsSafe flag = then-IsSafe (tag_of flag) dec_int64_tagged (tag_of-IsSafe flag) int64-IsSafe

or_zero-Ends : (n : ℕ) (r : Outcome ℕ × List ℕ) → Ends n r → Ends n (or_zero r)
or_zero-Ends n (ok a, s) h = h
or_zero-Ends n (err e, s) h = h
or_zero-Ends n (panic, s) h = h
or_zero-Ends n (stuck, s) h = h

or_zero-IsSafe : IsSafe (λ s. or_zero (dec_int32 none s))
or_zero-IsSafe = record {
  ends = λ s. or_zero-Ends (length s) (dec_int32 none s) ((dec_int32-IsSafe none).ends s);
}

double-IsSafe : (fl : FloatLib) (tag : ℕ) → IsSafe (dec_double_tagged fl tag)
unfolding dec_double_tagged
double-IsSafe fl tag = search (safe, dec_int32-IsSafe, or_zero-IsSafe) depth 60 fits 4000

pub dec_double-IsSafe : (fl : FloatLib) (flag : Option ℕ) → IsSafe (dec_double fl flag)
unfolding dec_double
dec_double-IsSafe fl flag =
    then-IsSafe (tag_of flag) (dec_double_tagged fl) (tag_of-IsSafe flag) (double-IsSafe fl)
