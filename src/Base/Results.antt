-- ===== src/Base/Results.antt =====
-- The outcome of a call of the Hessian reader: Go's (value, error) pair, or a run-time panic.
use Prim.Native.Nat.{ℕ}
use mathlib.Core.Path.{◌≡◌, refl}
use mathlib.Core.Logic.{◌⊎◌, inl, inr}
use mathlib.Core.Option.{Option, none, some}
use mathlib.Core.List.{List}

-- `eof` is the bare `io.EOF`, which some callers compare with; the others are wrapped by `jerrors`.
pub data Error : Type 0 where
  eof : Error
  short_read : Error
  not_enough_buf : Error
  illegal_ref_index : Error
  wrong_tag : Error
  bad_length : Error
  not_supported : Error
  no_such_class : Error

pub data Outcome {ℓ} (A : Type ℓ) : Type ℓ where
  ok : A → Outcome A
  err : Error → Outcome A
  panic : Outcome A
  stuck : Outcome A

pub Option-cases {ℓ} : {A : Type ℓ} (o : Option A) → (o ≡ none) ⊎ ((a : A) × (o ≡ some a))
Option-cases none = inl refl
Option-cases (some a) = inr (a, refl)

-- What the reader takes from its libraries. The package juju/errors makes something of a nil error,
-- by `jerrors.Trace(nil)` and `jerrors.Annotatef(nil, ...)`, where `none` is the nil error; and one
-- `Read` of the `bufio.Reader` gives no more than what stands in its buffer, a number of bytes by
-- what is still to be read of the input.
pub record ReaderLib : Type 0 where
  pub trace_nil : Option Error
  pub annotatef_nil : Option Error
  pub available : List ℕ → ℕ

-- A Go return of a value beside an error.
abbrev pub go_return {ℓ} : {A : Type ℓ} → A → Option Error → Outcome A
go_return a none = ok a
go_return a (some e) = err e

-- The first option that holds a value.
abbrev pub or_else {ℓ} : {A : Type ℓ} → Option A → Option A → Option A
or_else none o = o
or_else (some a) o = some a

pub or_else_assoc {ℓ} :
    {A : Type ℓ} (a b c : Option A) → or_else (or_else a b) c ≡ or_else a (or_else b c)
or_else_assoc none b c = refl
or_else_assoc (some a) b c = refl

pub or_else-none {ℓ} : {A : Type ℓ} (a : Option A) → or_else a none ≡ a
or_else-none none = refl
or_else-none (some a) = refl
