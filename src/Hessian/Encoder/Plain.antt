-- ===== src/Hessian/Encoder/Plain.antt =====
-- The values that read back as they were written, and what the encoder appends for them.
use mathlib.Core.List.{append-nil, append_assoc}
use dubbogo.Base.{
  ℕ, ◌%◌, ◌^◌, ◌<◌, ◌≡◌, refl, sym, ap, ◌∙◌, Bool, true, false, not, ◌&&◌, ◌||◌, List, [], ◌∷◌,
  ◌++◌, arith, if◌then◌else◌, length, All, ok,
}
use dubbogo.Hessian.Words.{IsWord64, sle64, neg32, neg64}
use dubbogo.Hessian.Ints.{enc_byte, enc_int32, bytes64, enc_int64}
use dubbogo.Hessian.Blob.{enc_binary}
use dubbogo.Hessian.Blob.RoundTrip.{enc_chunks-append}
use dubbogo.Hessian.Text.{Text, enc_string}
use dubbogo.Hessian.Values.{
  Instant, Value, Items, Entries, FloatLib, null, bool, int16, int32, int64, date, double, text,
  binary, list, go_map, typed_map, ref, enum, pojo, struct_value, no_items, item, no_entries, entry,
}
use dubbogo.Hessian.Doubles.{enc_float, unix_millis, enc_date_in_ms}
use dubbogo.Hessian.Strings.Runes.{IsRune}
use dubbogo.Hessian.Strings.Encoded.{enc_text-append}
use dubbogo.Hessian.Encoder.{
  count, is_empty, Encoded, then_encode, with_buffer, wrote, enc_value, enc_items, enc_entries,
  Encoder,
}
use dubbogo.Hessian.Decoder.{is_hashable}

-- A double in the form of eight bytes: no integer of 16 bits.
abbrev pub is_long_double : FloatLib → ℕ → Bool
is_long_double fl v =
    let iv = fl.to_int v in
    not (fl.same (fl.from_int iv) v) || not (sle64 (neg64 0x8000) iv && sle64 iv 0x7fff)

-- An instant of whole milliseconds.
abbrev pub IsMillis : Instant → Type 0
IsMillis t = (t.nanos < 2 ^ 63) × (t.nanos % 10 ^ 6 ≡ 0) × (t.before ≡ true → 0 < t.nanos)

module _ (fl : FloatLib) where
  unfoldable mutual
    pub IsPlain : Value → Type 0
    IsPlain null = Unit {0}
    IsPlain (bool v) = Unit {0}
    IsPlain (int32 v) = v < neg32 0x40000
    IsPlain (int64 v) = v < neg64 0x40000
    IsPlain (date t) = IsMillis t
    IsPlain (double v) = IsWord64 v × (is_long_double fl v ≡ true)
    IsPlain (text v) = All IsRune v
    IsPlain (binary v) = 0 < length v
    IsPlain (list xs) = (count xs < 2 ^ 31) × ArePlain xs
    IsPlain (go_map es) = (is_empty es ≡ false) × AreEntries es
    IsPlain _ = ⊥

    pub ArePlain : Items → Type 0
    ArePlain no_items = Unit {0}
    ArePlain (item v xs) = IsPlain v × ArePlain xs

    pub AreEntries : Entries → Type 0
    AreEntries no_entries = Unit {0}
    AreEntries (entry k v es) = (is_hashable k ≡ true) × IsPlain k × IsPlain v × AreEntries es

  -- What a plain value adds to the buffer.
  unfoldable mutual
    pub bytes_of : Value → List ℕ
    bytes_of null = b'N' ∷ []
    bytes_of (bool v) = (if v then b'T' else b'F') ∷ []
    bytes_of (int32 v) = enc_int32 v []
    bytes_of (int64 v) = enc_int64 v []
    bytes_of (date t) = 0x4a ∷ bytes64 (unix_millis t)
    bytes_of (double v) = b'D' ∷ bytes64 v
    bytes_of (text v) = enc_string v []
    bytes_of (binary v) = enc_binary v []
    bytes_of (list xs) = 0x58 ∷ enc_int32 (count xs) [] ++ bytes_of_items xs
    bytes_of (go_map es) = b'H' ∷ bytes_of_entries es ++ (b'Z' ∷ [])
    bytes_of _ = []

    pub bytes_of_items : Items → List ℕ
    bytes_of_items no_items = []
    bytes_of_items (item v xs) = bytes_of v ++ bytes_of_items xs

    pub bytes_of_entries : Entries → List ℕ
    bytes_of_entries no_entries = []
    bytes_of_entries (entry k v es) = bytes_of k ++ (bytes_of v ++ bytes_of_entries es)

pub enc_int32-append : (v : ℕ) (b : List ℕ) → enc_int32 v b ≡ b ++ enc_int32 v []
unfolding enc_int32
enc_int32-append v b = ground arith

pub enc_int64-append : (v : ℕ) (b : List ℕ) → enc_int64 v b ≡ b ++ enc_int64 v []
unfolding enc_int64
enc_int64-append v b = ground arith

pub enc_string-append : (v b : List ℕ) → enc_string v b ≡ b ++ enc_string v []
unfolding enc_string
enc_string-append v b = ground (arith, enc_text-append (length v) v b)

pub enc_binary-append : (v b : List ℕ) → enc_binary v b ≡ b ++ enc_binary v []
unfolding enc_binary
enc_binary-append v b = ground (arith, enc_chunks-append (length v) v b)

enc_float-long :
    (fl : FloatLib) (v : ℕ) (b : List ℕ)
    → is_long_double fl v ≡ true
    → enc_float fl v b ≡ b ++ (b'D' ∷ bytes64 v)
unfolding enc_float
enc_float-long fl v b h = ground arith

-- The bytes behind what the buffer has.
abbrev pub adding : List ℕ → Encoder → Encoder
adding x e = with_buffer e (e.buffer ++ x)

adding_both : (x y : List ℕ) (e : Encoder) → adding y (adding x e) ≡ adding (x ++ y) e
adding_both x y e = ap (with_buffer e) (append_assoc e.buffer x y)

adding_nil : (e : Encoder) → adding [] e ≡ e
adding_nil e = ap (with_buffer e) (append-nil e.buffer)

abbrev done : Encoder → List ℕ → Encoded
done e b = (ok tt, with_buffer e b)

module _ (fl : FloatLib) (to_lower : Text → Text) where
  abbrev Adds : Encoded → Encoder → List ℕ → Type 0
  Adds r e added = r ≡ (ok tt, adding added e)

  -- Two encodings one after the other.
  add_both :
      (r : Encoded) (k : Encoder → Encoded) (e : Encoder) (x y : List ℕ)
      → Adds r e x
      → Adds (k (adding x e)) (adding x e) y
      → Adds (then_encode r (λ u. k)) e (x ++ y)
  add_both r k e x y first second = rw first (second ∙ ap (λ e'. (ok tt, e')) (adding_both x y e))

  head-Adds :
      (n : ℕ) (e : Encoder)
      → n < 2 ^ 31
      → Adds
          (wrote (λ b. enc_int32 (n % 2 ^ 32) (enc_byte b (0x58 ∷ []))) e)
          e
          (0x58 ∷ enc_int32 n [])
  head-Adds n e small =
      let short : n % 2 ^ 32 ≡ n = omega arith in
      let b = e.buffer in
      ap (done e) (
        rw short
          (enc_int32-append n (b ++ (0x58 ∷ [])) ∙ append_assoc b (0x58 ∷ []) (enc_int32 n [])))

  mutual
    unfolding enc_value IsPlain bytes_of enc_date_in_ms

    enc_value-Adds :
        (v : Value) (e : Encoder)
        → IsPlain fl v
        → Adds (enc_value fl to_lower v e) e (bytes_of fl v)
    enc_value-Adds null e h = refl
    enc_value-Adds (bool v) e h = refl
    enc_value-Adds (int16 v) e h = absurd h
    enc_value-Adds (int32 v) e h = ap (done e) (enc_int32-append v e.buffer)
    enc_value-Adds (int64 v) e h = ap (done e) (enc_int64-append v e.buffer)
    enc_value-Adds (date t) e h = refl
    enc_value-Adds (double v) e h = ap (done e) (enc_float-long fl v e.buffer h.1)
    enc_value-Adds (text v) e h = ap (done e) (enc_string-append v e.buffer)
    enc_value-Adds (binary v) e h = ap (done e) (enc_binary-append v e.buffer)
    enc_value-Adds (list xs) e (small, plain) =
        add_both _ (enc_items fl to_lower xs) e (0x58 ∷ enc_int32 (count xs) [])
          (bytes_of_items fl xs) (head-Adds (count xs) e small)
          (enc_items-Adds xs (adding (0x58 ∷ enc_int32 (count xs) []) e) plain)
    enc_value-Adds (go_map es) e (some_entry, plain) =
        let close = λ (e' : Encoder). wrote (λ b. enc_byte b (b'Z' ∷ [])) e' in
        rw some_entry (
          add_both _ close e (b'H' ∷ bytes_of_entries fl es) (b'Z' ∷ [])
            (add_both _ (enc_entries fl to_lower es) e (b'H' ∷ []) (bytes_of_entries fl es) refl
              (enc_entries-Adds es (adding (b'H' ∷ []) e) plain))
            refl)
    enc_value-Adds (typed_map es) e h = absurd h
    enc_value-Adds (ref i) e h = absurd h
    enc_value-Adds (enum n) e h = absurd h
    enc_value-Adds (pojo o fs) e h = absurd h
    enc_value-Adds (struct_value t fs) e h = absurd h

    enc_items-Adds :
        (xs : Items) (e : Encoder)
        → ArePlain fl xs
        → Adds (enc_items fl to_lower xs e) e (bytes_of_items fl xs)
    enc_items-Adds no_items e h = ap (λ e'. (ok tt, e')) (sym (adding_nil e))
    enc_items-Adds (item v xs) e (h, hs) =
        add_both (enc_value fl to_lower v e) (enc_items fl to_lower xs) e (bytes_of fl v)
          (bytes_of_items fl xs) (enc_value-Adds v e h)
          (enc_items-Adds xs (adding (bytes_of fl v) e) hs)

    enc_entries-Adds :
        (es : Entries) (e : Encoder)
        → AreEntries fl es
        → Adds (enc_entries fl to_lower es e) e (bytes_of_entries fl es)
    enc_entries-Adds no_entries e h = ap (λ e'. (ok tt, e')) (sym (adding_nil e))
    enc_entries-Adds (entry k v es) e (key, hk, hv, hs) =
        let x = bytes_of fl k in
        let y = bytes_of fl v in
        add_both _ (enc_entries fl to_lower es) e (x ++ y) (bytes_of_entries fl es)
          (add_both _ (enc_value fl to_lower v) e x y (enc_value-Adds k e hk)
            (enc_value-Adds v (adding x e) hv))
          (enc_entries-Adds es (adding (x ++ y) e) hs)
        ∙ ap (λ b. (ok tt, adding b e)) (append_assoc x y (bytes_of_entries fl es))

  -- The encoder appends the bytes of a plain value, with no error.
  pub enc_value-plain :
      (v : Value) (e : Encoder)
      → IsPlain fl v
      → enc_value fl to_lower v e ≡ (ok tt, adding (bytes_of fl v) e)
  enc_value-plain = enc_value-Adds

  -- The same for the fields of a struct.
  pub enc_items-plain :
      (xs : Items) (e : Encoder)
      → ArePlain fl xs
      → enc_items fl to_lower xs e ≡ (ok tt, adding (bytes_of_items fl xs) e)
  enc_items-plain = enc_items-Adds
