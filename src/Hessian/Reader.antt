-- ===== src/Hessian/Reader.antt =====
-- The buffered reader under the decoder (codec/hessian/decode.go), as the bytes still to be read.
-- `ReadByte`, `Peek` of one byte and `io.ReadFull` fill the buffer as they need it; what a single
-- `Read` gives is `available` of ReaderLib.
use dubbogo.Base.{
  ℕ, zero, suc, ◌+◌, ◌*◌, ◌≡◌, refl, ◌⊎◌, inl, inr, Option, none, some, List, [], ◌∷◌, ◌++◌, arith,
  length, Error, Outcome, eof, short_read, ok, err, panic, stuck,
}

-- A call returns its outcome and the bytes that are left.
abbrev pub Reader : Type 0 → Type 0
Reader A = List ℕ → Outcome A × List ℕ

abbrev pub pure : {A : Type 0} → A → Reader A
pure a s = (ok a, s)

abbrev pub fail : {A : Type 0} → Error → Reader A
fail e s = (err e, s)

abbrev pub bind : {A B : Type 0} → Outcome A × List ℕ → (A → Reader B) → Outcome B × List ℕ
bind (ok a, s) f = f a s
bind (err e, s) f = (err e, s)
bind (panic, s) f = (panic, s)
bind (stuck, s) f = (stuck, s)

infixl 5 ◌>>=◌
abbrev pub ◌>>=◌ : {A B : Type 0} → Reader A → (A → Reader B) → Reader B
◌>>=◌ m f s = bind (m s) f

-- `d.reader.ReadByte()`
abbrev pub read_byte : Reader ℕ
read_byte [] = (err eof, [])
read_byte (b ∷ s) = (ok b, s)

-- `tag, _ = d.readByte()`: at the end of the input the tag is 0.
abbrev pub read_tag : Reader ℕ
read_tag [] = (ok 0, [])
read_tag (b ∷ s) = (ok b, s)

abbrev pub push_out : ℕ → Outcome (List ℕ) × List ℕ → Outcome (List ℕ) × List ℕ
push_out x (ok xs, s) = (ok (x ∷ xs), s)
push_out x (err e, s) = (err e, s)
push_out x (panic, s) = (panic, s)
push_out x (stuck, s) = (stuck, s)

-- `io.ReadFull(d.reader, buf[:n])`, its error wrapped by `jerrors.Trace`. A short input is used up.
abbrev pub read_full : ℕ → Reader (List ℕ)
read_full zero s = (ok [], s)
read_full (suc n) [] = (err short_read, [])
read_full (suc n) (x ∷ s) = push_out x (read_full n s)

-- The number that big-endian bytes stand for.
abbrev pub be_from : ℕ → List ℕ → ℕ
be_from acc [] = acc
be_from acc (b ∷ bs) = be_from (acc * 256 + b) bs

abbrev pub be : List ℕ → ℕ
be = be_from 0

-- The `flag` argument of the readers: `none` is `TAG_READ`, and `some t` is `int32(t)`.
abbrev pub tag_of : Option ℕ → Reader ℕ
tag_of none = read_tag
tag_of (some t) = pure t

-- A full read takes exactly the bytes asked for.
pub read_full-append :
    (n : ℕ) (xs rest : List ℕ) → length xs ≡ n → read_full n (xs ++ rest) ≡ (ok xs, rest)
read_full-append zero [] rest h = refl
read_full-append zero (x ∷ xs) rest h = absurd (omega arith)
read_full-append (suc n) [] rest h = absurd (omega arith)
read_full-append (suc n) (x ∷ xs) rest h = ground (arith, read_full-append n xs rest (omega arith))

-- A full read succeeds and leaves no more than there was, or fails with the input used up.
pub read_full_cases :
    (n : ℕ) (s : List ℕ)
    → ((xs : List ℕ) × (s' : List ℕ) × (read_full n s ≡ (ok xs, s'))
        × (length xs ≡ n)
        × (length s' + n ≡ length s))
      ⊎ (read_full n s ≡ (err short_read, []))
read_full_cases zero s = inl ([], s, refl, refl, omega arith)
read_full_cases (suc n) [] = inr refl
read_full_cases (suc n) (x ∷ s) = elim (read_full_cases n s) [
  | inl (xs, s', e, k, le) ↦ inl (x ∷ xs, s', rw e, omega arith, omega arith)
  | inr e ↦ inr (rw e)
]
