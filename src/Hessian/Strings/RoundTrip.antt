-- ===== src/Hessian/Strings/RoundTrip.antt =====
-- `decString` reads back what `encString` wrote.
use mathlib.Core.List.{append_assoc}
use dubbogo.Base.{
  ℕ, zero, suc, ◌≤◌, ◌<◌, ◌≡◌, refl, sym, ap, ◌∙◌, subst, ◌↔◌, inl, inr, Bool, true, false, not,
  Option, none, some, List, [], ◌∷◌, ◌++◌, arith, ltb, leb, ◌==◌, if◌then◌else◌, Bool-cases, leb→le,
  ltb→lt, ==_false, length, take, drop, All, length-append, length-take, length-drop,
  take-append-drop, All-take, All-drop, take_all, drop_all, ReaderLib, ok,
}
use dubbogo.Hessian.Reader.{Reader, ◌>>=◌, read_tag}
use dubbogo.Hessian.Blob.{chunk_size}
use dubbogo.Hessian.Text.{
  Text, utf8_all, text_head, text_length, enc_text, enc_string, get_string_length,
}
use dubbogo.Hessian.Text.Heads.{get_string_length-text_head}
use dubbogo.Hessian.Values.{FloatLib}
use dubbogo.Hessian.Strings.{read_runes, one_too_few, text_chunks, text_from, dec_string}
use dubbogo.Hessian.Strings.Runes.{IsRune, read_runes-utf8_all}
use dubbogo.Hessian.Strings.Encoded.{
  enc_text-nil, enc_text_step, length-utf8_all, length-enc_text, chunk_pos,
}

module _ (lib : ReaderLib) where
  -- A chunk whose length is known.
  chunk_of : ℕ → Bool → Text → Option ℕ → Reader Text
  chunk_of g last out none = one_too_few out
  chunk_of g last out (some m) = text_chunks lib g last m out

  -- The loop of the decoder with its tag still to be read.
  next_chunk : ℕ → Text → Reader Text
  next_chunk g out = read_tag >>= λ b. get_string_length lib b >>= chunk_of g (not (b == b'R')) out

  -- The end of a round: the last chunk ends the text, and another one goes on behind its tag.
  text_chunks_step :
      (g n : ℕ) (last : Bool) (out w rest : List ℕ)
      → All IsRune w
      → length w ≡ n
      → text_chunks lib (suc g) last n out (utf8_all w ++ rest)
        ≡ (if last then (ok (out ++ w), rest) else next_chunk g (out ++ w) rest)
  unfolding text_chunks next_chunk chunk_of
  text_chunks_step g n true out w rest runes e = rw (read_runes-utf8_all n w out rest runes e) refl
  text_chunks_step g n false out w rest runes e = rw (read_runes-utf8_all n w out rest runes e) refl

  tag_is : (tag n : ℕ) → ((tag ≡ b'R') ↔ (4096 < n)) → tag == b'R' ≡ ltb 4096 n
  tag_is tag n (there, back) = elim (Bool-cases (ltb 4096 n)) [
    | inl y ↦ rw (y, back (ltb→lt 4096 n y)) refl
    | inr z ↦ rw z (==_false tag b'R' (λ e. let big = there e in ground arith))
  ]

  -- Reading a header leads into its chunk.
  after_head :
      (g n : ℕ) (out s : List ℕ)
      → next_chunk g out (text_head n ++ s)
        ≡ text_chunks lib g (not (ltb 4096 n)) (text_length n) out s
  unfolding next_chunk chunk_of
  after_head g n out s =
      let (tag, bytes, e, found, last) = get_string_length-text_head lib n s in
      rw (e, found, tag_is tag n last) refl

  -- One round on both sides.
  one_round :
      (f g n : ℕ) (v out rest : List ℕ)
      → All IsRune v
      → 0 < length v
      → text_length (length v) ≡ n
      → next_chunk (suc g) out (enc_text (suc f) v [] ++ rest) ≡ (
          if not (ltb 4096 (length v))
          then (ok (out ++ take n v), enc_text f (drop n v) [] ++ rest)
          else next_chunk g (out ++ take n v) (enc_text f (drop n v) [] ++ rest))
  one_round f g n v out rest runes ne e =
      let later = enc_text f (drop n v) [] ++ rest in
      let small : n ≤ length v = ground arith in
      rw
        (
          enc_text_step f v rest ne,
          e,
          after_head (suc g) (length v) out (utf8_all (take n v) ++ later),
          e,
        )
        (text_chunks_step g n (not (ltb 4096 (length v))) out (take n v) later
          (All-take IsRune n v runes) (omega (arith, length-take n v)))

  next_chunk-enc_text :
      (f g : ℕ) (v out rest : List ℕ)
      → All IsRune v
      → length v ≤ f
      → 0 < length v
      → length v < g
      → next_chunk g out (enc_text f v [] ++ rest) ≡ (ok (out ++ v), rest)
  next_chunk-enc_text zero g v out rest runes hf ne hg = absurd (omega arith)
  next_chunk-enc_text (suc f) zero v out rest runes hf ne hg = absurd (omega arith)
  next_chunk-enc_text (suc f) (suc g) v out rest runes hf ne hg =
      elim (Bool-cases (ltb 4096 (length v))) [
        | inl big ↦
            let long = ltb→lt 4096 (length v) big in
            one_round f g chunk_size v out rest runes ne (rw big refl)
            ∙ rw big (
                next_chunk-enc_text f g (drop chunk_size v) (out ++ take chunk_size v) rest
                  (All-drop IsRune chunk_size v runes) (omega (arith, length-drop chunk_size v))
                  (omega (arith, length-drop chunk_size v))
                  (omega (arith, length-drop chunk_size v)))
            ∙ ap (λ l. (ok l, rest))
                (append_assoc out (take chunk_size v) (drop chunk_size v)
                  ∙ ap (λ l. out ++ l) (take-append-drop chunk_size v))
        | inr last ↦
            one_round f g (length v) v out rest runes ne (rw last refl)
            ∙ rw
                (
                  last,
                  take_all (length v) v (omega arith),
                  drop_all (length v) v (omega arith),
                  enc_text-nil f,
                )
                refl
      ]

  module _ (fl : FloatLib) (n : ℕ) (s : List ℕ) where
    abbrev Opens : Type 0
    Opens =
        dec_string lib fl none (text_head n ++ s)
        ≡ text_chunks lib (suc (suc (length s))) (not (ltb 4096 n)) (text_length n) [] s

    opens_long : 4096 < n → Opens
    unfolding dec_string text_from text_head get_string_length
    opens_long h = ground arith

    opens_direct : n ≤ 0x1f → Opens
    unfolding dec_string text_from text_head get_string_length
    opens_direct h = ground arith

    opens_short : 0x1f < n → n ≤ 0x3ff → Opens
    unfolding dec_string text_from text_head get_string_length
    opens_short h k = ground arith

    opens_full : 0x3ff < n → n ≤ 4096 → Opens
    unfolding dec_string text_from text_head get_string_length
    opens_full h k = ground arith

    opens : Opens
    opens = elim (Bool-cases (ltb 4096 n)) [
      | inl long ↦ opens_long (ltb→lt 4096 n long)
      | inr last ↦ elim (Bool-cases (leb n 0x3ff)) [
        | inr full ↦ opens_full (ground arith) (ground arith)
        | inl short ↦ elim (Bool-cases (leb n 0x1f)) [
          | inl direct ↦ opens_direct (leb→le n 0x1f direct)
          | inr more ↦ opens_short (ground arith) (leb→le n 0x3ff short)
        ]
      ]
    ]

  module _ (fl : FloatLib) where
    -- What follows the first round: the end, or the chunks behind it.
    after_round :
        (f n g : ℕ) (v rest : List ℕ)
        → All IsRune v
        → 0 < length v
        → length v ≤ suc f
        → text_length (length v) ≡ n
        → length (drop n v) < g
        → (if not (ltb 4096 (length v))
            then (ok (take n v), enc_text f (drop n v) [] ++ rest)
            else next_chunk g (take n v) (enc_text f (drop n v) [] ++ rest))
          ≡ (ok v, rest)
    after_round f n g v rest runes ne hf e enough = elim (Bool-cases (ltb 4096 (length v))) [
      | inl big ↦
          let long = ltb→lt 4096 (length v) big in
          let full : n ≡ 4096 = ground arith in
          rw big (
            next_chunk-enc_text f g (drop n v) (take n v) rest (All-drop IsRune n v runes)
              (omega (arith, length-drop n v)) (omega (arith, length-drop n v)) enough
            ∙ ap (λ l. (ok l, rest)) (take-append-drop n v))
      | inr last ↦
          let all : n ≡ length v = ground arith in
          rw (last, take_all n v (omega arith), drop_all n v (omega arith), enc_text-nil f) refl
    ]

    -- The chunks behind the first one, and the first one's runes, which bound their number.
    first_round :
        (f n : ℕ) (v rest s : List ℕ)
        → All IsRune v
        → 0 < length v
        → length v ≤ suc f
        → text_length (length v) ≡ n
        → s ≡ utf8_all (take n v) ++ (enc_text f (drop n v) [] ++ rest)
        → dec_string lib fl none (text_head (length v) ++ s) ≡ (ok v, rest)
    first_round f n v rest s runes ne hf e whole =
        let later = enc_text f (drop n v) [] ++ rest in
        let small : n ≤ length v = ground arith in
        let here : length (take n v) ≡ n = omega (arith, length-take n v) in
        let round =
          text_chunks_step (suc (length s)) n (not (ltb 4096 (length v))) [] (take n v) later
            (All-take IsRune n v runes) here in
        let enough : length (drop n v) < suc (length s) = omega (
          arith,
          ap length whole,
          length-append (utf8_all (take n v)) later,
          length-utf8_all (take n v),
          length-append (enc_text f (drop n v) []) rest,
          length-enc_text f (drop n v),
          length-drop n v,
          chunk_pos (length v) ne,
          e,
        ) in
        rw (opens fl (length v) s, e)
          (subst
            (λ u.
              text_chunks lib (suc (suc (length s))) (not (ltb 4096 (length v))) n [] u
              ≡ (ok v, rest))
            (sym whole) (round ∙ after_round f n (suc (length s)) v rest runes ne hf e enough))

    -- Text reads back, whatever its length, and what follows it is left unread.
    pub dec_string-enc_string :
        (v rest : List ℕ)
        → All IsRune v
        → dec_string lib fl none (enc_string v [] ++ rest) ≡ (ok v, rest)
    unfolding enc_string
    dec_string-enc_string [] rest runes =
        unfold dec_string text_from get_string_length text_chunks read_runes in refl
    dec_string-enc_string (x ∷ v) rest runes =
        rw
          (
            ==_false (suc (length v)) 0 (λ z. omega arith),
            enc_text_step (length v) (x ∷ v) rest (omega arith),
          )
          (first_round (length v) (text_length (suc (length v))) (x ∷ v) rest _ runes (omega arith)
            (omega arith) refl refl)
