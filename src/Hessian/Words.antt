-- ===== src/Hessian/Words.antt =====
-- Go's fixed-width integers. An int32 or int64 is its bit pattern, a number below 2 ^ 32 or 2 ^ 64.
use dubbogo.Base.{ℕ, ◌+◌, ◌-◌, ◌/◌, ◌%◌, ◌^◌, ◌<◌, Bool, leb, ltb, if◌then◌else◌}

abbrev pub IsByte : ℕ → Type 0
IsByte b = b < 256

abbrev pub IsWord32 : ℕ → Type 0
IsWord32 v = v < 2 ^ 32

abbrev pub IsWord64 : ℕ → Type 0
IsWord64 v = v < 2 ^ 64

-- `byte(v)`.
abbrev pub byte : ℕ → ℕ
byte v = v % 256

-- Signed `<=` on bit patterns: adding half the modulus orders them as unsigned numbers.
abbrev pub sle32 : ℕ → ℕ → Bool
sle32 a b = leb ((a + 2 ^ 31) % 2 ^ 32) ((b + 2 ^ 31) % 2 ^ 32)

abbrev pub sle64 : ℕ → ℕ → Bool
sle64 a b = leb ((a + 2 ^ 63) % 2 ^ 64) ((b + 2 ^ 63) % 2 ^ 64)

-- The arithmetic shift `v >> k`, which copies the sign bit.
abbrev pub sar32 : ℕ → ℕ → ℕ
sar32 v k = if ltb v (2 ^ 31) then v / 2 ^ k else v / 2 ^ k + (2 ^ 32 - 2 ^ (32 - k))

abbrev pub sar64 : ℕ → ℕ → ℕ
sar64 v k = if ltb v (2 ^ 63) then v / 2 ^ k else v / 2 ^ k + (2 ^ 64 - 2 ^ (64 - k))

-- The bit pattern of the negative constant -k.
abbrev pub neg32 : ℕ → ℕ
neg32 k = 2 ^ 32 - k

abbrev pub neg64 : ℕ → ℕ
neg64 k = 2 ^ 64 - k
