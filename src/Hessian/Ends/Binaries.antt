-- ===== src/Hessian/Ends/Binaries.antt =====
-- `decBinary` of codec/hessian/decode.go ends on any input.
use dubbogo.Base.{
  ℕ, zero, suc, ◌+◌, ◌≤◌, ◌<◌, ◌≡◌, refl, sym, subst, ◌⊎◌, inl, inr, false, Option, List, [], ◌∷◌,
  ◌++◌, arith, ltb, ◌==◌, if◌then◌else◌, Bool-cases, ==_iff, length, Outcome, ReaderLib, short_read,
  ok, err, panic, stuck,
}
use dubbogo.Hessian.Reader.{Reader, pure, ◌>>=◌, read_tag, read_full, be, tag_of, read_full_cases}
use dubbogo.Hessian.Blob.{chunk_size, get_binary_length, read_chunk, dec_chunks, dec_binary}
use dubbogo.Hessian.Ends.{
  Ends, Ends-weaken, if-Ends, bind-Ends, then-IsSafe, go_return-IsSafe, tag_of-IsSafe,
  read_full-IsSafe, IsSafe, safe,
}

binary_length-IsSafe : (tag : ℕ) → IsSafe (get_binary_length tag)
unfolding get_binary_length
binary_length-IsSafe tag = search safe depth 60 fits 4000

-- The length of a chunk that is not the last takes two bytes.
more_length_cases :
    (s : List ℕ)
    → ((n : ℕ) × (s' : List ℕ) × (get_binary_length b'A' s ≡ (ok n, s'))
        × (length s' + 2 ≡ length s))
      ⊎ (get_binary_length b'A' s ≡ (err short_read, []))
unfolding get_binary_length
more_length_cases s = elim (read_full_cases 2 s) [
  | inl (xs, s', e, k, le) ↦ inl (be xs, s', rw e refl, le)
  | inr e ↦ inr (rw e refl)
]

module _ (lib : ReaderLib) where
  read_chunk-Ends :
      (k : List ℕ → Reader (List ℕ)) (n : ℕ) (s : List ℕ)
      → ((chunk s' : List ℕ) → length s' ≤ length s → Ends (length s) (k chunk s'))
      → Ends (length s) (read_chunk lib k (ok n, s))
  read_chunk-Ends k n s h = elim (Bool-cases (ltb chunk_size n)) [
    | inl y ↦ rw y ((go_return-IsSafe [] lib.annotatef_nil).ends s)
    | inr m ↦ rw m (bind-Ends (length s) (read_full n s) k ((read_full-IsSafe n).ends s) h)
  ]

  -- A chunk whose length was read.
  last_chunk-Ends :
      (n : ℕ) (r : Outcome ℕ × List ℕ) (out : List ℕ)
      → Ends n r
      → Ends n (read_chunk lib (λ chunk. pure (out ++ chunk)) r)
  last_chunk-Ends n (ok l, s) out h =
      Ends-weaken (length s) n _
        (read_chunk-Ends (λ chunk. pure (out ++ chunk)) l s (λ chunk s' le. le)) h
  last_chunk-Ends n (err e, s) out h = h
  last_chunk-Ends n (panic, s) out h = h
  last_chunk-Ends n (stuck, s) out h = h

  more_chunk-Ends :
      (k : List ℕ → Reader (List ℕ)) (s : List ℕ)
      → ((chunk s' : List ℕ) → length s' < length s → Ends (length s') (k chunk s'))
      → Ends (length s) (read_chunk lib k (get_binary_length b'A' s))
  more_chunk-Ends k s h = elim (more_length_cases s) [
    | inl (n, s', e, le) ↦ rw e (
        Ends-weaken (length s') (length s) _
          (read_chunk-Ends k n s' (λ chunk s2 less.
            Ends-weaken (length s2) (length s') _ (h chunk s2 (omega arith)) less))
          (omega arith))
    | inr e ↦ rw e (omega arith)
  ]

  next_tag-Ends :
      (k : ℕ → Reader (List ℕ)) (s : List ℕ)
      → ((b : ℕ) (s' : List ℕ) → length s' ≤ length s → Ends (length s') (k b s'))
      → Ends (length s) ((read_tag >>= k) s)
  next_tag-Ends k [] h = h 0 [] (omega arith)
  next_tag-Ends k (b ∷ s) h =
      Ends-weaken (length s) (suc (length s)) _ (h b s (omega arith)) (omega arith)

  dec_chunks-last :
      (fuel tag : ℕ) (out s : List ℕ)
      → (tag == b'A') ≡ false
      → dec_chunks lib (suc fuel) tag out s
        ≡ read_chunk lib (λ chunk. pure (out ++ chunk)) (get_binary_length tag s)
  unfolding dec_chunks
  dec_chunks-last fuel tag out s m = rw (m, dec_chunks) refl

  dec_chunks-Ends :
      (fuel tag : ℕ) (out s : List ℕ)
      → length s < fuel
      → Ends (length s) (dec_chunks lib fuel tag out s)
  unfolding dec_chunks
  dec_chunks-Ends zero tag out s room = absurd (omega arith)
  dec_chunks-Ends (suc fuel) tag out s room = elim (Bool-cases (tag == b'A')) [
    | inl y ↦
        subst (λ t. Ends (length s) (dec_chunks lib (suc fuel) t out s))
          (sym ((==_iff tag b'A').0 y))
          (more_chunk-Ends (λ chunk. read_tag >>= λ next. dec_chunks lib fuel next (out ++ chunk)) s
            (λ chunk s' less.
              next_tag-Ends (λ next. dec_chunks lib fuel next (out ++ chunk)) s'
                (λ b s2 le. dec_chunks-Ends fuel b (out ++ chunk) s2 (omega arith))))
    | inr m ↦ subst (Ends (length s)) (sym (dec_chunks-last fuel tag out s m)) (
        last_chunk-Ends (length s) (get_binary_length tag s) out
          ((binary_length-IsSafe tag).ends s))
  ]

  behind_tag-IsSafe :
      (tag : ℕ)
      → IsSafe (λ s. if tag == b'N' then (ok [], s) else dec_chunks lib (suc (length s)) tag [] s)
  behind_tag-IsSafe tag = record {
    ends = λ s.
        if-Ends (length s) (tag == b'N') (ok [], s) (dec_chunks lib (suc (length s)) tag [] s)
          (omega arith) (dec_chunks-Ends (suc (length s)) tag [] s (omega arith));
  }

  pub dec_binary-IsSafe : (flag : Option ℕ) → IsSafe (dec_binary lib flag)
  unfolding dec_binary
  dec_binary-IsSafe flag =
      then-IsSafe (tag_of flag)
        (λ tag s. if tag == b'N' then (ok [], s) else dec_chunks lib (suc (length s)) tag [] s)
        (tag_of-IsSafe flag) behind_tag-IsSafe
