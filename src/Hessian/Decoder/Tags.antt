-- ===== src/Hessian/Decoder/Tags.antt =====
-- The tags of the encodings, and where `Decode` goes by each.
use native.Mathlib.Decide.{dec_lt}
use mathlib.Core.List.{append-nil}
use dubbogo.Base.{
  ℕ, suc, ◌+◌, ◌/◌, ◌^◌, ◌<◌, ◌≡◌, refl, sym, ap, ◌∙◌, Bool, true, false, ◌||◌, some, List, [], ◌∷◌,
  ◌++◌, arith, ◌==◌, within, ==_false, length, take, drop, ReaderLib,
}
use dubbogo.Hessian.Words.{byte, sar32, neg32, neg64}
use dubbogo.Hessian.Ints.{enc_int32, bytes64, enc_int64, dec_int32, dec_int64}
use dubbogo.Hessian.Ints.RoundTrip.{long_form}
use dubbogo.Hessian.Blob.{chunk_size, chunk_head, chunk_length, enc_chunks, enc_binary, dec_binary}
use dubbogo.Hessian.Blob.RoundTrip.{enc_step}
use dubbogo.Hessian.Text.{Text, utf8_all, text_head, text_length, enc_text, enc_string}
use dubbogo.Hessian.Values.{Value, FloatLib, int32, int64, text, binary}
use dubbogo.Hessian.Strings.Encoded.{enc_text_step}
use dubbogo.Hessian.Strings.{is_text_tag, dec_string}
use dubbogo.Hessian.Decoder.{Decoding, as_value, decode_tagged, Decoder, ObjectReader}

abbrev pub is_int32_tag : ℕ → Bool
is_int32_tag tag = within 0x80 0xd7 tag || tag == b'I'

abbrev pub is_int64_tag : ℕ → Bool
is_int64_tag tag = within 0xd8 0xff tag || within 0x38 0x3f tag || tag == b'L'

abbrev pub is_binary_tag : ℕ → Bool
is_binary_tag tag = tag == b'B' || tag == b'A' || within 0x20 0x2f tag || within 0x34 0x37 tag

-- The bytes open with a tag of the class.
abbrev pub OpensWith : (ℕ → Bool) → List ℕ → Type 0
OpensWith class bytes = (tag : ℕ) × (ts : List ℕ) × (bytes ≡ tag ∷ ts) × (class tag ≡ true)

pub enc_int32-OpensWith : (v : ℕ) → v < neg32 0x40000 → OpensWith is_int32_tag (enc_int32 v [])
unfolding enc_int32
enc_int32-OpensWith v h = elim (dec_lt v 0x30) [
  | yes a ↦ (v + 0x90, [], ground arith, ground arith)
  | no n1 ↦ elim (dec_lt v 0x800) [
    | yes a ↦ (0xc8 + v / 2 ^ 8, byte v ∷ [], ground arith, ground arith)
    | no n2 ↦ elim (dec_lt v 0x40000) [
      | yes a ↦ (v / 2 ^ 16 + 0xd4, byte (v / 2 ^ 8) ∷ byte v ∷ [], ground arith, ground arith)
      | no n3 ↦ (
        b'I',
        byte (sar32 v 24) ∷ byte (sar32 v 16) ∷ byte (sar32 v 8) ∷ byte v ∷ [],
        ground arith,
        refl,
      )
    ]
  ]
]

pub enc_int64-OpensWith : (v : ℕ) → v < neg64 0x40000 → OpensWith is_int64_tag (enc_int64 v [])
unfolding enc_int64
enc_int64-OpensWith v h = elim (dec_lt v 0x10) [
  | yes a ↦ (0xe0 + v, [], ground arith, ground arith)
  | no n1 ↦ elim (dec_lt v 0x800) [
    | yes a ↦ (0xf8 + v / 2 ^ 8, byte v ∷ [], ground arith, ground arith)
    | no n2 ↦ elim (dec_lt v 0x40000) [
      | yes a ↦ (0x3c + v / 2 ^ 16, byte (v / 2 ^ 8) ∷ byte v ∷ [], ground arith, ground arith)
      | no n3 ↦ (b'L', bytes64 v, long_form v (omega arith) h, refl)
    ]
  ]
]

chunk_head-OpensWith : (n : ℕ) → 0 < n → OpensWith is_binary_tag (chunk_head n)
unfolding chunk_head
chunk_head-OpensWith n h = elim (dec_lt chunk_size n) [
  | yes big ↦ (b'A', 0x10 ∷ 0 ∷ [], ground arith, refl)
  | no a ↦ elim (dec_lt 0x0f n) [
    | no direct ↦ (0x20 + n, [], ground arith, ground arith)
    | yes b ↦ elim (dec_lt 0x3ff n) [
      | no short ↦ (0x34 + n / 2 ^ 8, byte n ∷ [], ground arith, ground arith)
      | yes c ↦ (b'B', byte (n / 2 ^ 8) ∷ byte n ∷ [], ground arith, refl)
    ]
  ]
]

pub enc_binary-OpensWith : (v : List ℕ) → 0 < length v → OpensWith is_binary_tag (enc_binary v [])
unfolding enc_binary
enc_binary-OpensWith [] h = absurd (omega arith)
enc_binary-OpensWith (x ∷ v) h =
    let n = chunk_length (suc (length v)) in
    let later = take n (x ∷ v) ++ (enc_chunks (length v) (drop n (x ∷ v)) [] ++ []) in
    let (tag, ts, e, class) = chunk_head-OpensWith (suc (length v)) (omega arith) in
    (
      tag,
      ts ++ later,
      rw (==_false (suc (length v)) 0 (λ z. omega arith)) (
          sym (append-nil (enc_chunks (suc (length v)) (x ∷ v) []))
          ∙ enc_step (length v) n (x ∷ v) [] (omega arith) refl
          ∙ ap (λ l. l ++ later) e),
      class,
    )

module _ (lib : ReaderLib) (fl : FloatLib) where
  text_head-OpensWith : (n : ℕ) → OpensWith (is_text_tag lib fl) (text_head n)
  unfolding text_head
  text_head-OpensWith n = elim (dec_lt chunk_size n) [
    | yes big ↦ (b'R', 0x10 ∷ 0 ∷ [], ground arith, refl)
    | no a ↦ elim (dec_lt 0x1f n) [
      | no direct ↦ (n, [], ground arith, ground arith)
      | yes b ↦ elim (dec_lt 0x3ff n) [
        | no short ↦ (n / 2 ^ 8 + 0x30, byte n ∷ [], ground arith, ground arith)
        | yes c ↦ (b'S', byte (n / 2 ^ 8) ∷ byte n ∷ [], ground arith, refl)
      ]
    ]
  ]

  pub enc_string-OpensWith : (v : Text) → OpensWith (is_text_tag lib fl) (enc_string v [])
  unfolding enc_string
  enc_string-OpensWith [] = (0, [], refl, refl)
  enc_string-OpensWith (x ∷ v) =
      let n = text_length (suc (length v)) in
      let later = utf8_all (take n (x ∷ v)) ++ (enc_text (length v) (drop n (x ∷ v)) [] ++ []) in
      let (tag, ts, e, class) = text_head-OpensWith (suc (length v)) in
      (
        tag,
        ts ++ later,
        rw (==_false (suc (length v)) 0 (λ z. omega arith)) (
            sym (append-nil (enc_text (suc (length v)) (x ∷ v) []))
            ∙ enc_text_step (length v) (x ∷ v) [] (omega arith)
            ∙ ap (λ l. l ++ later) e),
        class,
      )

  module _ (objects : ObjectReader) (decode : Decoding Value) (tag : ℕ) (d : Decoder) where
    pub decode_int32 :
        is_int32_tag tag ≡ true
        → decode_tagged lib fl objects decode tag d ≡ as_value int32 (dec_int32 (some tag)) d
    unfolding decode_tagged
    decode_int32 h = ground arith

    pub decode_int64 :
        is_int64_tag tag ≡ true
        → decode_tagged lib fl objects decode tag d ≡ as_value int64 (dec_int64 (some tag)) d
    unfolding decode_tagged
    decode_int64 h = ground arith

    pub decode_text :
        is_text_tag lib fl tag ≡ true
        → decode_tagged lib fl objects decode tag d ≡ as_value text (dec_string lib fl (some tag)) d
    unfolding decode_tagged
    decode_text h = ground arith

    pub decode_binary :
        is_binary_tag tag ≡ true
        → decode_tagged lib fl objects decode tag d ≡ as_value binary (dec_binary lib (some tag)) d
    unfolding decode_tagged
    decode_binary h =
        let z : tag == b'Z' || tag == b'N' ≡ false = ground arith in
        let t : tag == b'T' ≡ false = ground arith in
        let f : tag == b'F' ≡ false = ground arith in
        let i : within 0x80 0xd7 tag || tag == b'I' ≡ false = ground arith in
        let l : within 0xd8 0xff tag || within 0x38 0x3f tag || tag == 0x59 || tag == b'L' ≡ false =
          ground arith in
        let j : tag == 0x4b || tag == 0x4a ≡ false = ground arith in
        let e : within 0x5b 0x5f tag || tag == b'D' ≡ false = ground arith in
        let s : is_text_tag lib fl tag ≡ false = ground arith in
        let b : tag == b'B' || tag == b'A' || within 0x20 0x2f tag || within 0x34 0x3f tag ≡ true =
          ground arith in
        rw (z, t, f, i, l, j, e, s, b) refl
