-- ===== src/Hessian/Strings/Encoded.antt =====
-- What `encString` writes, chunk by chunk.
use mathlib.Core.List.{append-nil, append_assoc}
use dubbogo.Base.{
  ℕ, zero, suc, ◌≤◌, ◌<◌, ◌≡◌, refl, sym, ap, ◌∙◌, List, [], ◌∷◌, ◌++◌, arith, ==_false, length,
  take, drop, length-append, length-take, length-drop,
}
use dubbogo.Hessian.Text.{utf8, utf8_all, text_head, text_length, enc_text}

-- What the encoder has in its buffer stays in front.
pub enc_text-append : (fuel : ℕ) (v b : List ℕ) → enc_text fuel v b ≡ b ++ enc_text fuel v []
unfolding enc_text
enc_text-append zero v b = sym (append-nil b)
enc_text-append (suc fuel) v b =
    let n = text_length (length v) in
    let h = text_head (length v) in
    let front = utf8_all (take n v) in
    let later = enc_text fuel (drop n v) [] in
    ground (
      arith,
      enc_text-append fuel (drop n v) ((b ++ h) ++ front),
      enc_text-append fuel (drop n v) (([] ++ h) ++ front),
      append_assoc (b ++ h) front later,
      append_assoc b h (front ++ later),
      append_assoc h front later,
      append-nil b,
    )

pub enc_text-nil : (fuel : ℕ) → enc_text fuel [] [] ≡ []
unfolding enc_text
enc_text-nil zero = refl
enc_text-nil (suc fuel) = refl

-- The first chunk, before those that follow.
pub enc_text_step :
    (f : ℕ) (v rest : List ℕ)
    → 0 < length v
    → enc_text (suc f) v [] ++ rest
      ≡ text_head (length v)
        ++ (utf8_all (take (text_length (length v)) v)
            ++ (enc_text f (drop (text_length (length v)) v) [] ++ rest))
unfolding enc_text
enc_text_step f v rest ne =
    let n = text_length (length v) in
    let h = text_head (length v) in
    let front = utf8_all (take n v) in
    rw (==_false (length v) 0 (λ z. omega arith), enc_text-append f (drop n v) (h ++ front))
      (append_assoc (h ++ front) (enc_text f (drop n v) []) rest
        ∙ append_assoc h front (enc_text f (drop n v) [] ++ rest))

pub length-utf8_all : (rs : List ℕ) → length rs ≤ length (utf8_all rs)
unfolding utf8_all utf8
length-utf8_all [] = omega arith
length-utf8_all (r ∷ rs) = ground (arith, length-append (utf8 r) (utf8_all rs), length-utf8_all rs)

-- The encoding is not shorter than the text.
pub length-enc_text : (f : ℕ) (v : List ℕ) → length v ≤ f → length v ≤ length (enc_text f v [])
length-enc_text f [] h = omega arith
length-enc_text zero (x ∷ v) h = absurd (omega arith)
length-enc_text (suc f) (x ∷ v) h =
    let u = x ∷ v in
    let n = text_length (length u) in
    let front = utf8_all (take n u) in
    let later = enc_text f (drop n u) [] in
    let pos : 0 < n = ground arith in
    let e = ap length (enc_text_step f u [] (omega arith)) in
    omega (
      arith,
      rw (append-nil, append-nil) at e,
      length-append (text_head (length u)) (front ++ later),
      length-append front later,
      length-utf8_all (take n u),
      length-take n u,
      length-drop n u,
      length-enc_text f (drop n u),
    )

pub chunk_pos : (n : ℕ) → 0 < n → 0 < text_length n
chunk_pos n h = ground arith
