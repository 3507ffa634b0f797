-- ===== src/Hessian/Blob/RoundTrip.antt =====
-- `decBinary` reads back what `encBinary` wrote.
use dubbogo.Base.{
  ℕ, zero, suc, ◌+◌, ◌/◌, ◌^◌, ◌≤◌, ◌<◌, ◌≡◌, refl, sym, ap, ◌∙◌, ◌≢◌, none, List, [], ◌∷◌, ◌++◌,
  arith, lt→ltb, ==_false, length, take, drop, length-append, length-take, length-drop,
  take-append-drop, take_all, drop_all, ReaderLib, ok,
}
use dubbogo.Hessian.Words.{byte}
use dubbogo.Hessian.Reader.{Reader, bind, ◌>>=◌, read_tag, read_full-append}
use dubbogo.Hessian.Blob.{
  chunk_size, chunk_head, chunk_length, enc_chunks, enc_binary, get_binary_length, dec_chunks,
  dec_binary,
}
use native.Mathlib.Decide.{dec_lt}
use mathlib.Core.List.{append-nil, append_assoc}

-- What the encoder has in its buffer stays in front.
pub enc_chunks-append : (fuel : ℕ) (v b : List ℕ) → enc_chunks fuel v b ≡ b ++ enc_chunks fuel v []
unfolding enc_chunks
enc_chunks-append zero v b = sym (append-nil b)
enc_chunks-append (suc fuel) v b =
    let n = chunk_length (length v) in
    let h = chunk_head (length v) in
    ground (
      arith,
      enc_chunks-append fuel (drop n v) ((b ++ h) ++ take n v),
      enc_chunks-append fuel (drop n v) (([] ++ h) ++ take n v),
      append_assoc (b ++ h) (take n v) (enc_chunks fuel (drop n v) []),
      append_assoc b h (take n v ++ enc_chunks fuel (drop n v) []),
      append_assoc h (take n v) (enc_chunks fuel (drop n v) []),
      append-nil b,
    )

enc_chunks-nil : (fuel : ℕ) (b : List ℕ) → enc_chunks fuel [] b ≡ b
unfolding enc_chunks
enc_chunks-nil zero b = refl
enc_chunks-nil (suc fuel) b = refl

enc_last :
    (f : ℕ) (v rest : List ℕ)
    → 0 < length v
    → length v ≤ chunk_size
    → enc_chunks (suc f) v [] ++ rest ≡ chunk_head (length v) ++ (v ++ rest)
unfolding enc_chunks
enc_last f v rest ne small = ground (
  arith,
  take_all (length v) v (omega arith),
  drop_all (length v) v (omega arith),
  enc_chunks-nil f (chunk_head (length v) ++ v),
  append_assoc (chunk_head (length v)) v rest,
)

pub enc_step :
    (f n : ℕ) (v rest : List ℕ)
    → 0 < length v
    → chunk_length (length v) ≡ n
    → enc_chunks (suc f) v [] ++ rest
      ≡ chunk_head (length v) ++ (take n v ++ (enc_chunks f (drop n v) [] ++ rest))
unfolding enc_chunks
enc_step f n v rest ne e =
    let h = chunk_head (length v) in
    rw (lt→ltb 0 (length v) ne, e, enc_chunks-append f (drop n v) (h ++ take n v))
      (append_assoc (h ++ take n v) (enc_chunks f (drop n v) []) rest
        ∙ append_assoc h (take n v) (enc_chunks f (drop n v) [] ++ rest))

enc_more :
    (f : ℕ) (v rest : List ℕ)
    → chunk_size < length v
    → enc_chunks (suc f) v [] ++ rest
      ≡ chunk_head (length v)
        ++ (take chunk_size v ++ (enc_chunks f (drop chunk_size v) [] ++ rest))
enc_more f v rest big = enc_step f chunk_size v rest (omega arith) (rw (lt→ltb chunk_size _ big))

chunk_length-pos : (n : ℕ) → 0 < n → 0 < chunk_length n
chunk_length-pos n h = ground arith

-- The encoding is not shorter than the data.
length-enc_chunks : (f : ℕ) (v : List ℕ) → length v ≤ f → length v ≤ length (enc_chunks f v [])
length-enc_chunks f [] h = omega arith
length-enc_chunks zero (x ∷ v) h = absurd (omega arith)
length-enc_chunks (suc f) (x ∷ v) h =
    let u = x ∷ v in
    let n = chunk_length (length u) in
    let d = drop n u in
    let e = ap length (enc_step f n u [] (omega arith) refl) in
    omega (
      arith,
      rw (append-nil, append-nil) at e,
      length-append (chunk_head (length u)) (take n u ++ enc_chunks f d []),
      length-append (take n u) (enc_chunks f d []),
      length-take n u,
      length-drop n u,
      chunk_length-pos (length u),
      length-enc_chunks f d,
    )

-- No chunk opens with the byte of null.
chunk_head-cons : (n : ℕ) → 0 < n → (t : ℕ) × (ts : List ℕ) × (chunk_head n ≡ t ∷ ts) × (t ≢ b'N')
chunk_head-cons n h = elim (dec_lt chunk_size n) [
  | yes big ↦ (b'A', 0x10 ∷ 0 ∷ [], unfold chunk_head in ground arith, omega arith)
  | no a ↦ elim (dec_lt 0x0f n) [
    | no direct ↦ (0x20 + n, [], unfold chunk_head in ground arith, omega arith)
    | yes b ↦ elim (dec_lt 0x3ff n) [
      | no short ↦ (0x34 + n / 2 ^ 8, byte n ∷ [], unfold chunk_head in ground arith, omega arith)
      | yes c ↦
          (b'B', byte (n / 2 ^ 8) ∷ byte n ∷ [], unfold chunk_head in ground arith, omega arith)
    ]
  ]
]

written_cons :
    (x : ℕ) (v rest : List ℕ)
    → (t : ℕ) × (s : List ℕ) × (enc_chunks (suc (length v)) (x ∷ v) [] ++ rest ≡ t ∷ s)
      × (t ≢ b'N')
      × (suc (length v) < length (t ∷ s))
written_cons x v rest =
    let u = x ∷ v in
    let n = chunk_length (length u) in
    let body = take n u ++ (enc_chunks (length v) (drop n u) [] ++ rest) in
    let (t, ts, e, h) = chunk_head-cons (length u) (omega arith) in
    (
      t,
      ts ++ body,
      enc_step (length v) n u rest (omega arith) refl ∙ rw e refl,
      h,
      omega (
        arith,
        length-append ts body,
        length-append (take n u) (enc_chunks (length v) (drop n u) [] ++ rest),
        length-append (enc_chunks (length v) (drop n u) []) rest,
        length-take n u,
        length-drop n u,
        chunk_length-pos (length u),
        length-enc_chunks (length v) (drop n u),
      ),
    )

module _ (lib : ReaderLib) where
  -- The loop of the decoder with its tag still to be read.
  abbrev dec_from : ℕ → List ℕ → Reader (List ℕ)
  dec_from g out = read_tag >>= λ tag. dec_chunks lib g tag out

  last_chunk :
      (g n : ℕ) (out w rest : List ℕ)
      → n ≤ chunk_size
      → length w ≡ n
      → dec_from (suc g) out (chunk_head n ++ (w ++ rest)) ≡ (ok (out ++ w), rest)
  unfolding dec_chunks chunk_head get_binary_length
  last_chunk g n out w rest small e = ground (arith, read_full-append n w rest e)

  head_full : (n : ℕ) → chunk_size < n → chunk_head n ≡ b'A' ∷ 0x10 ∷ 0 ∷ []
  unfolding chunk_head
  head_full n big = ground arith

  full_chunk :
      (g n : ℕ) (out w rest : List ℕ)
      → chunk_size < n
      → length w ≡ chunk_size
      → dec_from (suc g) out (chunk_head n ++ (w ++ rest)) ≡ dec_from g (out ++ w) rest
  unfolding dec_chunks get_binary_length
  full_chunk g n out w rest big e =
      rw (head_full n big) (rw (read_full-append chunk_size w rest e, bind) refl)

  -- Reading from the first chunk on, with enough rounds on both sides.
  dec_from-enc_chunks :
      (f g : ℕ) (v out rest : List ℕ)
      → length v ≤ f
      → 0 < length v
      → length v < g
      → dec_from g out (enc_chunks f v [] ++ rest) ≡ (ok (out ++ v), rest)
  dec_from-enc_chunks zero g v out rest hf ne hg = absurd (omega arith)
  dec_from-enc_chunks (suc f) zero v out rest hf ne hg = absurd (omega arith)
  dec_from-enc_chunks (suc f) (suc g) v out rest hf ne hg = elim (dec_lt chunk_size (length v)) [
    | yes big ↦ rw (enc_more f v rest big) (
        rw
          (full_chunk g (length v) out (take chunk_size v) _ big
            (omega (arith, length-take chunk_size v)))
          (rw
            (
              dec_from-enc_chunks f g (drop chunk_size v) (out ++ take chunk_size v) rest
                  (omega (arith, length-drop chunk_size v))
                  (omega (arith, length-drop chunk_size v))
                  (omega (arith, length-drop chunk_size v)),
              append_assoc,
              take-append-drop,
            )
            refl))
    | no small ↦
        rw (enc_last f v rest ne (omega arith))
          (last_chunk g (length v) out v rest (omega arith) refl)
  ]

  dec_binary-cons :
      (t : ℕ) (s : List ℕ)
      → t ≢ b'N'
      → dec_binary lib none (t ∷ s) ≡ dec_from (suc (length s)) [] (t ∷ s)
  unfolding dec_binary
  dec_binary-cons t s h = rw (==_false t b'N' h)

  dec_written :
      (t : ℕ) (s : List ℕ) (v rest : List ℕ)
      → t ≢ b'N'
      → enc_chunks (length v) v [] ++ rest ≡ t ∷ s
      → 0 < length v
      → length v < length (t ∷ s)
      → dec_binary lib none (t ∷ s) ≡ (ok v, rest)
  dec_written t s v rest h e ne lt =
      dec_binary-cons t s h
      ∙ ap (dec_from (suc (length s)) []) (sym e)
      ∙ dec_from-enc_chunks (length v) (suc (length s)) v [] rest (omega arith) ne lt

  -- Binary data of any length reads back, and what follows it is left unread.
  pub dec_binary-enc_binary :
      (v rest : List ℕ) → dec_binary lib none (enc_binary v [] ++ rest) ≡ (ok v, rest)
  unfolding enc_binary
  dec_binary-enc_binary [] rest = unfold dec_binary in refl
  dec_binary-enc_binary (x ∷ v) rest =
      let (t, s, e, h, lt) = written_cons x v rest in
      rw (==_false (suc (length v)) 0 (λ q. omega arith), e)
        (dec_written t s (x ∷ v) rest h e (omega arith) lt)
