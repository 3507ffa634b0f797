-- ===== src/Hessian/Strings/Runes.antt =====
-- Runes are read as they are written.
use mathlib.Core.List.{append-nil, append_assoc}
use dubbogo.Base.{
  ℕ, zero, suc, ◌≤◌, ◌<◌, ◌≡◌, refl, ap, ◌∙◌, ◌⊎◌, inl, inr, List, [], ◌∷◌, ◌++◌, arith, ltb,
  Bool-cases, ltb→lt, length, All, ok,
}
use dubbogo.Hessian.Text.{utf8, utf8_all}
use dubbogo.Hessian.Strings.{first_rune, read_rune, read_runes}

-- A Unicode scalar value, which UTF-8 can hold.
abbrev pub IsRune : ℕ → Type 0
IsRune r = (r < 0xd800) ⊎ ((0xe000 ≤ r) × (r < 0x110000))

module _ (r : ℕ) (rest : List ℕ) where
  read_one : r < 0x80 → read_rune (utf8 r ++ rest) ≡ (ok r, rest)
  unfolding read_rune first_rune utf8
  read_one h = ground arith

  read_two : 0x80 ≤ r → r < 0x800 → read_rune (utf8 r ++ rest) ≡ (ok r, rest)
  unfolding read_rune first_rune utf8
  read_two h k = ground arith

  read_three : IsRune r → 0x800 ≤ r → r < 0x10000 → read_rune (utf8 r ++ rest) ≡ (ok r, rest)
  unfolding read_rune first_rune utf8
  read_three i h k = ground arith

  read_four : 0x10000 ≤ r → r < 0x110000 → read_rune (utf8 r ++ rest) ≡ (ok r, rest)
  unfolding read_rune first_rune utf8
  read_four h k = ground arith

  read_rune-utf8 : IsRune r → read_rune (utf8 r ++ rest) ≡ (ok r, rest)
  read_rune-utf8 i = elim (Bool-cases (ltb r 0x800)) [
    | inl small ↦ elim (Bool-cases (ltb r 0x80)) [
      | inl one ↦ read_one (ltb→lt r 0x80 one)
      | inr two ↦ read_two (ground arith) (ltb→lt r 0x800 small)
    ]
    | inr large ↦ elim (Bool-cases (ltb r 0x10000)) [
      | inl three ↦ read_three i (ground arith) (ltb→lt r 0x10000 three)
      | inr four ↦ read_four (ground arith) (ground arith)
    ]
  ]

-- As many runes as were written are read, and what follows them is left.
pub read_runes-utf8_all :
    (n : ℕ) (rs out rest : List ℕ)
    → All IsRune rs
    → length rs ≡ n
    → read_runes n out (utf8_all rs ++ rest) ≡ (ok (out ++ rs), rest)
unfolding read_runes utf8_all
read_runes-utf8_all zero [] out rest i e = rw append-nil refl
read_runes-utf8_all zero (r ∷ rs) out rest i e = absurd (omega arith)
read_runes-utf8_all (suc n) [] out rest i e = absurd (omega arith)
read_runes-utf8_all (suc n) (r ∷ rs) out rest (first, others) e =
    rw (append_assoc (utf8 r) (utf8_all rs) rest, read_rune-utf8 r (utf8_all rs ++ rest) first)
      (read_runes-utf8_all n rs (out ++ (r ∷ [])) rest others (omega arith)
        ∙ ap (λ l. (ok l, rest)) (append_assoc out (r ∷ []) rs))
