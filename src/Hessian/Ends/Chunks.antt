-- ===== src/Hessian/Ends/Chunks.antt =====
-- The loops over the chunks of texts and binary data end on any input.
use dubbogo.Base.{
  ℕ, zero, suc, ◌≤◌, ◌<◌, ◌≡◌, refl, ◌⊎◌, inl, inr, Bool, true, false, not, Option, none, some,
  List, [], ◌∷◌, ◌++◌, arith, ◌==◌, length, ReaderLib, panic,
}
use dubbogo.Hessian.Reader.{Reader, pure, ◌>>=◌, read_tag}
use dubbogo.Hessian.Text.{Text, get_string_length}
use dubbogo.Hessian.Strings.{
  rune2, rune3, rune4, first_rune, read_rune, read_runes, one_too_few, text_chunks,
}
use dubbogo.Hessian.Ends.{
  Ends, Ends-weaken, pure-IsSafe, bind-Ends, then-IsSafe, go_return-IsSafe, IsSafe, safe,
}

pub string_length-IsSafe : (lib : ReaderLib) (tag : ℕ) → IsSafe (get_string_length lib tag)
unfolding get_string_length
string_length-IsSafe lib tag = search (safe, go_return-IsSafe) depth 60 fits 4000

rune2_shorter : (b : ℕ) (s : List ℕ) → length (rune2 b s).1 ≤ length s
unfolding rune2
rune2_shorter b [] = omega arith
rune2_shorter b (c ∷ s) = ground arith

rune3_shorter : (b : ℕ) (s : List ℕ) → length (rune3 b s).1 ≤ length s
unfolding rune3
rune3_shorter b [] = omega arith
rune3_shorter b (c ∷ []) = omega arith
rune3_shorter b (c ∷ d ∷ s) = ground arith

rune4_shorter : (b : ℕ) (s : List ℕ) → length (rune4 b s).1 ≤ length s
unfolding rune4
rune4_shorter b [] = omega arith
rune4_shorter b (c ∷ []) = omega arith
rune4_shorter b (c ∷ d ∷ []) = omega arith
rune4_shorter b (c ∷ d ∷ e ∷ s) = ground arith

first_rune-shorter : (b : ℕ) (s : List ℕ) → length (first_rune b s).1 ≤ length s
unfolding first_rune
first_rune-shorter b s = ground (arith, rune2_shorter b s, rune3_shorter b s, rune4_shorter b s)

read_rune-Ends : (s : List ℕ) → Ends (length s) (read_rune s)
unfolding read_rune
read_rune-Ends [] = omega arith
read_rune-Ends (b ∷ s) = omega (arith, first_rune-shorter b s)

read_rune-IsSafe : IsSafe read_rune
read_rune-IsSafe = record { ends = read_rune-Ends }

read_runes-IsSafe : (n : ℕ) (out : Text) → IsSafe (read_runes n out)
unfolding read_runes
read_runes-IsSafe zero out = pure-IsSafe out
read_runes-IsSafe (suc n) out =
    then-IsSafe read_rune (λ r. read_runes n (out ++ (r ∷ []))) read_rune-IsSafe
      (λ r. read_runes-IsSafe n (out ++ (r ∷ [])))

one_too_few-IsSafe : (out : Text) → IsSafe (one_too_few out)
unfolding one_too_few
one_too_few-IsSafe [] = record { ends = λ s. omega arith }
one_too_few-IsSafe (r ∷ out) =
    then-IsSafe read_rune (λ _ s'. (panic, s')) read_rune-IsSafe
      (λ _. record { ends = λ s'. omega arith })

module _ (lib : ReaderLib) where
  -- Rounds for each byte and one more, or one for a last chunk.
  abbrev pub Room : ℕ → Bool → List ℕ → Type 0
  Room fuel last s = (suc (length s) < fuel) ⊎ ((last ≡ true) × (0 < fuel))

  later-Room :
      (fuel : ℕ) (last : Bool) (s s' s3 : List ℕ)
      → suc (length s) < suc fuel
      → length s' ≤ length s
      → (suc (length s3) ≤ length s') ⊎ (last ≡ true)
      → Room fuel last s3
  later-Room fuel last s s' s3 room h (inl less) = inl (omega arith)
  later-Room fuel last s s' s3 room h (inr is_last) = inr (is_last, omega arith)

  abbrev behind_length : (ℕ → ℕ → Reader Text) → Text → ℕ → Option ℕ → Reader Text
  behind_length k out b l = elim l [ none ↦ one_too_few out | some m ↦ k b m ]

  after_length :
      (k : ℕ → ℕ → Reader Text) (out : Text) (s : List ℕ) (b : ℕ)
      → ((b m : ℕ) (s' : List ℕ)
          → (suc (length s') ≤ suc (length s)) ⊎ (not (b == b'R') ≡ true)
          → Ends (length s') (k b m s'))
      → (l : Option ℕ) (s' : List ℕ) → length s' ≤ length s
      → Ends {A = Text} (length s) (behind_length k out b l s')
  after_length k out s b rounds none s' h =
      Ends-weaken (length s') (length s) _ ((one_too_few-IsSafe out).ends s') h
  after_length k out s b rounds (some m) s' h =
      Ends-weaken (length s') (length s) _ (rounds b m s' (inl (omega arith))) h

  -- The chunk behind a tag, `k` being the rounds for its tag and length: they have a byte less to
  -- read, or the tag is that of a last chunk.
  next_chunk-Ends :
      (k : ℕ → ℕ → Reader Text) (out : Text) (s : List ℕ)
      → ((b m : ℕ) (s' : List ℕ)
          → (suc (length s') ≤ length s) ⊎ (not (b == b'R') ≡ true)
          → Ends (length s') (k b m s'))
      → Ends (length s) (
          (read_tag >>= λ b.
          get_string_length lib b >>= λ l. elim l [ none ↦ one_too_few out | some m ↦ k b m ])
            s)
  unfolding get_string_length
  next_chunk-Ends k out [] rounds = rounds 0 0 [] (inr refl)
  next_chunk-Ends k out (b ∷ s) rounds =
      Ends-weaken (length s) (suc (length s)) _
        (bind-Ends (length s) (get_string_length lib b s) (behind_length k out b)
          ((string_length-IsSafe lib b).ends s) (λ l s' h. after_length k out s b rounds l s' h))
        (omega arith)

  pub text_chunks-Ends :
      (fuel : ℕ) (last : Bool) (n : ℕ) (out : Text) (s : List ℕ)
      → Room fuel last s
      → Ends (length s) (text_chunks lib fuel last n out s)
  unfolding text_chunks
  text_chunks-Ends zero last n out s (inl room) = absurd (omega arith)
  text_chunks-Ends zero last n out s (inr (e, room)) = absurd (omega arith)
  text_chunks-Ends (suc fuel) true n out s room =
      bind-Ends (length s) (read_runes n out s) (λ out'. pure out')
        ((read_runes-IsSafe n out).ends s) (λ out' s' h. h)
  text_chunks-Ends (suc fuel) false n out s (inr (e, room)) = absurd (grind arith)
  text_chunks-Ends (suc fuel) false n out s (inl room) =
      bind-Ends (length s) (read_runes n out s) _ ((read_runes-IsSafe n out).ends s) (λ out' s' h.
        Ends-weaken (length s') (length s) _
          (next_chunk-Ends (λ b m. text_chunks lib fuel (not (b == b'R')) m out') out' s'
            (λ b m s3 less.
              text_chunks-Ends fuel (not (b == b'R')) m out' s3
                (later-Room fuel (not (b == b'R')) s s' s3 room h less)))
          h)
