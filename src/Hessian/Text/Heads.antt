-- ===== src/Hessian/Text/Heads.antt =====
-- The headers of text chunks are read as they are written.
use dubbogo.Base.{
  ℕ, ◌+◌, ◌-◌, ◌*◌, ◌/◌, ◌%◌, ◌^◌, ◌≤◌, ◌<◌, ◌≡◌, refl, ap, ◌↔◌, inl, inr, true, false, some, List,
  [], ◌∷◌, ◌++◌, arith, ltb, leb, within, Bool-cases, ltb→lt, ReaderLib, ok,
}
use dubbogo.Hessian.Text.{text_head, text_length, get_string_length}

-- The header of a chunk opens with a tag that is 'R' exactly for a chunk that is not the last one,
-- and behind it the reader finds the number of runes in the chunk.
pub get_string_length-text_head :
    (lib : ReaderLib) (n : ℕ) (rest : List ℕ)
    → (tag : ℕ) × (bytes : List ℕ) × (text_head n ≡ tag ∷ bytes)
      × (get_string_length lib tag (bytes ++ rest) ≡ (ok (some (text_length n)), rest))
      × ((tag ≡ b'R') ↔ (4096 < n))
unfolding text_head get_string_length
get_string_length-text_head lib n rest = elim (Bool-cases (ltb 4096 n)) [
  | inl long ↦ (b'R', 16 ∷ 0 ∷ [], rw long refl, rw long refl, (λ e. ltb→lt 4096 n long, λ h. refl))
  | inr last ↦ elim (Bool-cases (leb n 0x1f)) [
    | inl direct ↦
        let same_tag : n % 256 ≡ n = ground arith in
        (
          n,
          [],
          rw (last, direct, same_tag) refl,
          rw (last, direct) refl,
          (λ e. ground arith, λ h. ground arith),
        )
    | inr no_direct ↦ elim (Bool-cases (leb n 0x3ff)) [
      | inl short ↦
          let high : n / 256 ≤ 3 = ground arith in
          let same_tag : (n / 256 + 0x30) % 256 ≡ n / 256 + 0x30 = omega arith in
          let not_direct : leb (n / 256 + 0x30) 0x1f ≡ false = ground arith in
          let is_short : within 0x30 0x33 (n / 256 + 0x30) ≡ true = ground arith in
          let whole : ((n / 256 + 0x30 + 256 - 0x30) % 256) * 256 + (0 + n % 256) ≡ n =
            omega arith in
          (
            n / 2 ^ 8 + 0x30,
            n % 256 ∷ [],
            rw (last, no_direct, short, same_tag) refl,
            rw (not_direct, is_short, last) (ap (λ k. (ok (some k), rest)) whole),
            (λ e. absurd (omega arith), λ h. ground arith),
          )
      | inr long ↦
          let bound : n ≤ 4096 = ground arith in
          let whole : ((0 + (n / 256) % 256) * 256 + n % 256) ≡ n = omega arith in
          (
            b'S',
            (n / 2 ^ 8) % 256 ∷ n % 256 ∷ [],
            rw (last, no_direct, long) refl,
            rw last (ap (λ k. (ok (some k), rest)) whole),
            (λ e. absurd (omega arith), λ h. ground arith),
          )
    ]
  ]
]
