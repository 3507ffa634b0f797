-- ===== src/Hessian/Blob/Ends.antt =====
-- `decBinary` on any input, and on a chunk longer than its buffer.
use native.Mathlib.Decide.{ℕ_discrete}
use dubbogo.Base.{
  ℕ, zero, suc, ◌+◌, ◌*◌, ◌<◌, ◌≡◌, ◌≢◌, inl, inr, Option, none, some, List, [], ◌∷◌, ◌++◌, arith,
  ltb, Bool-cases, ==_false, length, go_return, Error, Outcome, ReaderLib, ok, err, panic, stuck,
}
use dubbogo.Hessian.Reader.{Reader, ◌>>=◌, read_tag, read_full_cases}
use dubbogo.Hessian.Blob.{chunk_size, get_binary_length, read_chunk, dec_chunks, dec_binary}

-- A length was read within the bound on what is left, or the call failed.
abbrev Leaves : ℕ → Outcome ℕ × List ℕ → Type 0
Leaves m (ok n, s) = length s < m
Leaves m (err e, s) = Unit
Leaves m (panic, s) = ⊥
Leaves m (stuck, s) = ⊥

-- Reading a length never takes the input back, and the flag of a non-final chunk takes two bytes.
length-Leaves : (tag : ℕ) (s : List ℕ) → Leaves (suc (length s)) (get_binary_length tag s)
unfolding get_binary_length
length-Leaves tag [] = ground arith
length-Leaves tag (x ∷ []) = ground arith
length-Leaves tag (x ∷ y ∷ s) = ground arith

full_length-Leaves : (s : List ℕ) → Leaves (length s) (get_binary_length b'A' s)
unfolding get_binary_length
full_length-Leaves [] = tt
full_length-Leaves (x ∷ []) = tt
full_length-Leaves (x ∷ y ∷ s) = omega arith

module _ (lib : ReaderLib) where
  go_return-ne-stuck : (o : Option Error) → go_return {A = List ℕ} [] o ≢ stuck
  go_return-ne-stuck none e = cc
  go_return-ne-stuck (some x) e = cc

  -- A chunk whose rest is handled without running out of rounds.
  read_chunk-ne-stuck :
      (m : ℕ) (k : List ℕ → Reader (List ℕ)) (r : Outcome ℕ × List ℕ)
      → Leaves m r
      → ((chunk s : List ℕ) → length s < m → (k chunk s).0 ≢ stuck)
      → (read_chunk lib k r).0 ≢ stuck
  read_chunk-ne-stuck m k (ok n, s) h ends = elim (Bool-cases (ltb chunk_size n)) [
    | inl over ↦ rw over (go_return-ne-stuck lib.annotatef_nil)
    | inr fits ↦ elim (read_full_cases n s) [
      | inl (xs, s', e, l, le) ↦ rw (fits, e) (ends xs s' (omega arith))
      | inr e ↦ rw (fits, e) (λ p. cc)
    ]
  ]
  read_chunk-ne-stuck m k (err e, s) h ends = λ p. cc
  read_chunk-ne-stuck m k (panic, s) h ends = absurd h
  read_chunk-ne-stuck m k (stuck, s) h ends = absurd h

  next_tag-ne-stuck :
      (k : ℕ → Reader (List ℕ)) (m : ℕ) (s : List ℕ)
      → length s < m
      → ((tag : ℕ) (s' : List ℕ) → length s' < m → (k tag s').0 ≢ stuck)
      → ((read_tag >>= k) s).0 ≢ stuck
  next_tag-ne-stuck k m [] h ends = ends 0 [] h
  next_tag-ne-stuck k m (b ∷ s) h ends = ends b s (omega arith)

  dec_chunks-ne-stuck :
      (fuel tag : ℕ) (out s : List ℕ) → length s < fuel → (dec_chunks lib fuel tag out s).0 ≢ stuck
  unfolding dec_chunks
  dec_chunks-ne-stuck zero tag out s h = absurd (omega arith)
  dec_chunks-ne-stuck (suc fuel) tag out s h = elim (ℕ_discrete tag b'A') [
    | yes e ↦ rw e (
        read_chunk-ne-stuck (length s) _ _ (full_length-Leaves s) λ chunk s' lt.
          next_tag-ne-stuck _ (length s) s' lt
            λ next s'' lt'. dec_chunks-ne-stuck fuel next (out ++ chunk) s'' (omega arith))
    | no ne ↦
        rw (==_false tag b'A' ne, dec_chunks)
          (read_chunk-ne-stuck _ _ _ (length-Leaves tag s) λ chunk s' lt p. cc)
  ]

  -- On any input the call ends: it returns data or an error.
  pub dec_binary-ne-stuck : (flag : Option ℕ) (s : List ℕ) → (dec_binary lib flag s).0 ≢ stuck
  unfolding dec_binary
  dec_binary-ne-stuck none [] = dec_chunks-ne-stuck 1 0 [] [] (omega arith)
  dec_binary-ne-stuck none (b ∷ s) =
      ground (arith, dec_chunks-ne-stuck (suc (length s)) b [] s (omega arith))
  dec_binary-ne-stuck (some b) s =
      ground (arith, dec_chunks-ne-stuck (suc (length s)) b [] s (omega arith))

  -- A final chunk longer than 4096 bytes is no error: where `jerrors.Annotatef(nil, ...)` is nil the
  -- call succeeds with no data, and leaves the chunk unread.
  pub oversize_chunk_lost :
      (hi lo : ℕ) (rest : List ℕ)
      → lib.annotatef_nil ≡ none
      → chunk_size < hi * 256 + lo
      → dec_binary lib none (b'B' ∷ hi ∷ lo ∷ rest) ≡ (ok [], rest)
  unfolding dec_binary dec_chunks get_binary_length
  oversize_chunk_lost hi lo rest nil big = ground arith
