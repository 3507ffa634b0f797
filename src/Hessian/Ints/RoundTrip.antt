-- ===== src/Hessian/Ints/RoundTrip.antt =====
-- What reading an integer back gives.
use dubbogo.Base.{
  ℕ, ◌/◌, ◌%◌, ◌^◌, ◌≤◌, ◌<◌, ◌≡◌, refl, ◌≢◌, ◌↔◌, ◌⊎◌, none, List, [], ◌∷◌, ◌++◌, arith, ltb,
  if◌then◌else◌, wrong_tag, ok, err,
}
use dubbogo.Hessian.Reader.{be}
use dubbogo.Hessian.Words.{IsWord32, IsWord64, neg32, neg64}
use dubbogo.Hessian.Ints.{enc_int32, bytes64, enc_int64, dec_int32, dec_int64}

-- A compact form loses the sign: its first byte is not sign-extended.
pub read_back32 : ℕ → ℕ
read_back32 v =
    if ltb v (neg32 0x40000)
    then v
    else if ltb v (neg32 0x800)
    then v % 2 ^ 24
    else if ltb v (neg32 0x10)
    then v % 2 ^ 16
    else v % 2 ^ 8

pub dec_int32-enc_int32 :
    (v : ℕ) (rest : List ℕ)
    → IsWord32 v
    → dec_int32 none (enc_int32 v [] ++ rest) ≡ (ok (read_back32 v), rest)
unfolding dec_int32 enc_int32 read_back32
dec_int32-enc_int32 v rest h = ground arith

-- Reading an int32 back returns it exactly when its bit pattern is below that of -0x40000, that
-- is, unless it is negative and has a compact form; whatever follows it is left unread.
pub dec_int32_exact :
    (v : ℕ) (rest : List ℕ)
    → IsWord32 v
    → (dec_int32 none (enc_int32 v [] ++ rest) ≡ (ok v, rest)) ↔ (v < neg32 0x40000)
unfolding read_back32
dec_int32_exact v rest h = rw (dec_int32-enc_int32 v rest h) (λ e. ground arith, λ lt. ground arith)

pub read_back64 : ℕ → ℕ
read_back64 v =
    if ltb v (neg64 0x40000)
    then v
    else if ltb v (neg64 0x800)
    then v % 2 ^ 24
    else if ltb v (neg64 0x08)
    then v % 2 ^ 16
    else v % 2 ^ 8

-- One round trip for each form that `enc_int64` writes.
direct64 :
    (v : ℕ) (rest : List ℕ)
    → (v < 0x10) ⊎ (neg64 0x08 ≤ v) × (v < 2 ^ 64)
    → dec_int64 none (enc_int64 v [] ++ rest) ≡ (ok (v % 2 ^ 8), rest)
unfolding dec_int64 enc_int64
direct64 v rest h = ground arith

byte64 :
    (v : ℕ) (rest : List ℕ)
    → (0x10 ≤ v) × (v < 0x800) ⊎ (neg64 0x800 ≤ v) × (v < neg64 0x08)
    → dec_int64 none (enc_int64 v [] ++ rest) ≡ (ok (v % 2 ^ 16), rest)
unfolding dec_int64 enc_int64
byte64 v rest h = ground arith

short64 :
    (v : ℕ) (rest : List ℕ)
    → (0x800 ≤ v) × (v < 0x40000) ⊎ (neg64 0x40000 ≤ v) × (v < neg64 0x800)
    → dec_int64 none (enc_int64 v [] ++ rest) ≡ (ok (v % 2 ^ 24), rest)
unfolding dec_int64 enc_int64
short64 v rest h = ground arith

pub bytes64_lem :
    (v : ℕ)
    → IsWord64 v
    → bytes64 v
      ≡ (v / 2 ^ 56 % 256)
        ∷ (v / 2 ^ 48 % 256)
        ∷ (v / 2 ^ 40 % 256)
        ∷ (v / 2 ^ 32 % 256)
        ∷ (v / 2 ^ 24 % 256)
        ∷ (v / 2 ^ 16 % 256)
        ∷ (v / 2 ^ 8 % 256)
        ∷ (v % 256)
        ∷ []
unfolding bytes64
bytes64_lem v h = ground arith

pub be-bytes64 : (v : ℕ) → IsWord64 v → be (bytes64 v) ≡ v
be-bytes64 v h = rw (bytes64_lem v h) (omega arith)

pub long_form : (v : ℕ) → 0x40000 ≤ v → v < neg64 0x40000 → enc_int64 v [] ≡ b'L' ∷ bytes64 v
unfolding enc_int64
long_form v lo hi = ground arith

read_long :
    (v : ℕ) (rest : List ℕ)
    → dec_int64 none (b'L' ∷ bytes64 v ++ rest) ≡ (ok (be (bytes64 v) % 2 ^ 64), rest)
unfolding dec_int64 bytes64
read_long v rest = refl

long64 :
    (v : ℕ) (rest : List ℕ)
    → 0x40000 ≤ v
    → v < neg64 0x40000
    → dec_int64 none (enc_int64 v [] ++ rest) ≡ (ok v, rest)
long64 v rest lo hi =
    rw (long_form v lo hi, read_long v rest, be-bytes64 v (omega arith)) (ground arith)

pub dec_int64-enc_int64 :
    (v : ℕ) (rest : List ℕ)
    → IsWord64 v
    → dec_int64 none (enc_int64 v [] ++ rest) ≡ (ok (read_back64 v), rest)
unfolding read_back64
dec_int64-enc_int64 v rest h =
    ground (arith, direct64 v rest, byte64 v rest, short64 v rest, long64 v rest)

-- The same for int64: the long form `L` and the compact forms of non-negative numbers read back,
-- and the compact forms of negative ones do not.
pub dec_int64_exact :
    (v : ℕ) (rest : List ℕ)
    → IsWord64 v
    → (dec_int64 none (enc_int64 v [] ++ rest) ≡ (ok v, rest)) ↔ (v < neg64 0x40000)
unfolding read_back64
dec_int64_exact v rest h = rw (dec_int64-enc_int64 v rest h) (λ e. ground arith, λ lt. ground arith)

-- The form `x59 b3 b2 b1 b0` of the grammar does not read back: the byte after the tag is taken
-- for the tag of an int32, and one that is no such tag is an error.
pub long_int_form_refused :
    (b3 : ℕ) (rest : List ℕ)
    → b3 < 0x80
    → b3 ≢ b'I'
    → dec_int64 none (0x59 ∷ b3 ∷ rest) ≡ (err wrong_tag, rest)
unfolding dec_int64 dec_int32
long_int_form_refused b3 rest h n = ground arith
