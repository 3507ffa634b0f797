-- ===== src/Hessian/Decoder/Leaves.antt =====
-- `Decode` reads back a value without parts.
use Prim.Native.Nat.{max}
use dubbogo.Base.{
  ℕ, zero, suc, ◌≤◌, ◌<◌, ◌≡◌, refl, sym, ap, ◌∙◌, Bool, true, false, Option, none, some, List, [],
  ◌∷◌, ◌++◌, arith, length, All, ReaderLib, ok,
}
use dubbogo.Hessian.Words.{IsWord64, neg32, neg64}
use dubbogo.Hessian.Reader.{Reader}
use dubbogo.Hessian.Ints.{enc_int32, bytes64, enc_int64, dec_int32, dec_int64}
use dubbogo.Hessian.Ints.RoundTrip.{dec_int32_exact, dec_int64_exact}
use dubbogo.Hessian.Blob.{enc_binary, dec_binary}
use dubbogo.Hessian.Blob.RoundTrip.{dec_binary-enc_binary}
use dubbogo.Hessian.Text.{Text, enc_string}
use dubbogo.Hessian.Values.{
  Instant, Value, Items, Entries, FloatLib, null, bool, int32, int64, date, double, text, binary,
  list, go_map, no_items, item, no_entries, entry,
}
use dubbogo.Hessian.Doubles.{unix_millis, enc_date_in_ms, dec_date, HoldsAll}
use dubbogo.Hessian.Doubles.Reads.{whole_millis, dec_date-enc_date_in_ms, read_long_double}
use dubbogo.Hessian.Strings.{is_text_tag, dec_string}
use dubbogo.Hessian.Strings.Runes.{IsRune}
use dubbogo.Hessian.Strings.RoundTrip.{dec_string-enc_string}
use dubbogo.Hessian.Classes.{ClassInfo}
use dubbogo.Hessian.Encoder.Plain.{IsMillis, bytes_of}
use dubbogo.Hessian.Decoder.{
  Decoding, as_value, decode_tagged, decode_from, decode, Decoder, ObjectReader,
}
use dubbogo.Hessian.Decoder.Tags.{
  is_int32_tag, is_int64_tag, is_binary_tag, OpensWith, enc_int32-OpensWith, enc_int64-OpensWith,
  enc_binary-OpensWith, enc_string-OpensWith, decode_int32, decode_int64, decode_text,
  decode_binary,
}

pub whole_millis-IsMillis : (t : Instant) → IsMillis t → whole_millis t ≡ t
unfolding whole_millis
whole_millis-IsMillis t h = ground (arith, h.2)

-- How deep values stand in a value, itself included.
unfoldable mutual
  pub depth : Value → ℕ
  depth (list xs) = suc (depth_items xs)
  depth (go_map es) = suc (depth_entries es)
  depth _ = 1

  pub depth_items : Items → ℕ
  depth_items no_items = 0
  depth_items (item v xs) = max (depth v) (depth_items xs)

  pub depth_entries : Entries → ℕ
  depth_entries no_entries = 0
  depth_entries (entry k v es) = max (max (depth k) (depth v)) (depth_entries es)

-- The references behind a value, each list and map being one.
unfoldable mutual
  pub refs_after : Value → ℕ → ℕ
  refs_after (list xs) n = refs_after_items xs (suc n)
  refs_after (go_map es) n = refs_after_entries es (suc n)
  refs_after _ n = n

  pub refs_after_items : Items → ℕ → ℕ
  refs_after_items no_items n = n
  refs_after_items (item v xs) n = refs_after_items xs (refs_after v n)

  pub refs_after_entries : Entries → ℕ → ℕ
  refs_after_entries no_entries n = n
  refs_after_entries (entry k v es) n = refs_after_entries es (refs_after v (refs_after k n))

abbrev pub decoder : List ℕ → ℕ → List ClassInfo → Decoder
decoder s n classes = record { bytes = s; refs = n; class_info_list = classes }

module _ (lib : ReaderLib) (fl : FloatLib) (objects : ObjectReader) (classes : List ClassInfo) where
  abbrev at : List ℕ → ℕ → Decoder
  at s n = decoder s n classes

  abbrev run : ℕ → Decoding Value
  run = decode lib fl objects

  -- A value that one reader reads.
  leaf :
      {A : Type 0} (f n : ℕ) (wrap : A → Value) (m : Option ℕ → Reader A) (class : ℕ → Bool)
      (bytes rest : List ℕ) (a : A)
      → OpensWith class bytes
      → ((tag : ℕ) (d : Decoder)
          → class tag ≡ true
          → decode_tagged lib fl objects (run f) tag d ≡ as_value wrap (m (some tag)) d)
      → ((tag : ℕ) (s : List ℕ) → m none (tag ∷ s) ≡ m (some tag) s)
      → m none (bytes ++ rest) ≡ (ok a, rest)
      → run (suc f) (at (bytes ++ rest) n) ≡ (ok (wrap a), at rest n)
  unfolding decode decode_from
  leaf f n wrap m class bytes rest a (tag, ts, e, is_class) dispatch flagged reads =
      let whole : bytes ++ rest ≡ tag ∷ (ts ++ rest) = ap (λ l. l ++ rest) e in
      let inner : m (some tag) (ts ++ rest) ≡ (ok a, rest) =
        sym (flagged tag (ts ++ rest)) ∙ ap (m none) (sym whole) ∙ reads in
      rw (whole, dispatch tag (at (ts ++ rest) n) is_class, inner) refl

  abbrev ReadsBack : Value → Type 0
  ReadsBack v =
      (f n : ℕ) (rest : List ℕ)
      → depth v ≤ f
      → run f (at (bytes_of fl v ++ rest) n) ≡ (ok v, at rest (refs_after v n))

  pub int32_back : (v : ℕ) → v < neg32 0x40000 → ReadsBack (int32 v)
  unfolding depth refs_after bytes_of dec_int32
  int32_back v h zero n rest k = absurd (omega arith)
  int32_back v h (suc f) n rest k =
      leaf f n int32 dec_int32 is_int32_tag (enc_int32 v []) rest v (enc_int32-OpensWith v h)
        (decode_int32 lib fl objects (run f)) (λ tag s. refl)
        ((dec_int32_exact v rest (omega arith)).1 h)

  pub int64_back : (v : ℕ) → v < neg64 0x40000 → ReadsBack (int64 v)
  unfolding depth refs_after bytes_of dec_int64
  int64_back v h zero n rest k = absurd (omega arith)
  int64_back v h (suc f) n rest k =
      leaf f n int64 dec_int64 is_int64_tag (enc_int64 v []) rest v (enc_int64-OpensWith v h)
        (decode_int64 lib fl objects (run f)) (λ tag s. refl)
        ((dec_int64_exact v rest (omega arith)).1 h)

  pub text_back : (v : Text) → All IsRune v → ReadsBack (text v)
  unfolding depth refs_after bytes_of dec_string
  text_back v h zero n rest k = absurd (omega arith)
  text_back v h (suc f) n rest k =
      leaf f n text (dec_string lib fl) (is_text_tag lib fl) (enc_string v []) rest v
        (enc_string-OpensWith lib fl v) (decode_text lib fl objects (run f)) (λ tag s. refl)
        (dec_string-enc_string lib fl v rest h)

  pub binary_back : (v : List ℕ) → 0 < length v → ReadsBack (binary v)
  unfolding depth refs_after bytes_of dec_binary
  binary_back v h zero n rest k = absurd (omega arith)
  binary_back v h (suc f) n rest k =
      leaf f n binary (dec_binary lib) is_binary_tag (enc_binary v []) rest v
        (enc_binary-OpensWith v h) (decode_binary lib fl objects (run f)) (λ tag s. refl)
        (dec_binary-enc_binary lib v rest)

  pub date_back : (t : Instant) → HoldsAll lib → IsMillis t → ReadsBack (date t)
  unfolding depth refs_after bytes_of decode decode_from decode_tagged dec_date enc_date_in_ms
  date_back t whole h zero n rest k = absurd (omega arith)
  date_back t whole h (suc f) n rest k =
      let reads : dec_date lib (some 0x4a) (bytes64 (unix_millis t) ++ rest)
          ≡ (ok (date (whole_millis t)), rest) =
        dec_date-enc_date_in_ms lib t rest whole h.0 in
      rw (reads, whole_millis-IsMillis t h) refl

  pub double_back : (v : ℕ) → IsWord64 v → ReadsBack (double v)
  unfolding depth refs_after bytes_of decode decode_from decode_tagged
  double_back v h zero n rest k = absurd (omega arith)
  double_back v h (suc f) n rest k = rw (read_long_double fl v rest h) refl

  pub bool_back : (v : Bool) → ReadsBack (bool v)
  unfolding depth refs_after bytes_of decode decode_from decode_tagged
  bool_back v zero n rest k = absurd (omega arith)
  bool_back true (suc f) n rest k = refl
  bool_back false (suc f) n rest k = refl

  pub null_back : ReadsBack null
  unfolding depth refs_after bytes_of decode decode_from decode_tagged
  null_back zero n rest k = absurd (omega arith)
  null_back (suc f) n rest k = refl
