-- ===== src/Hessian/Decoder/RoundTrip.antt =====
-- `Decode` reads back what `Encode` wrote.
use mathlib.Core.List.{append_assoc}
use dubbogo.Base.{
  ℕ, zero, suc, ◌^◌, ◌≤◌, ◌<◌, ◌≡◌, refl, ap, ◌∙◌, true, false, not, List, [], ◌∷◌, ◌++◌, arith,
  ◌==◌, length, length-append, ReaderLib, ok,
}
use dubbogo.Hessian.Doubles.{HoldsAll}
use dubbogo.Hessian.Ints.{enc_int32}
use dubbogo.Hessian.Ints.RoundTrip.{dec_int32_exact}
use dubbogo.Hessian.Text.{Text}
use dubbogo.Hessian.Values.{
  Value, Items, Entries, FloatLib, null, bool, int16, int32, int64, date, double, text, binary,
  list, go_map, typed_map, ref, enum, pojo, struct_value, no_items, item, no_entries, entry,
}
use dubbogo.Hessian.Classes.{ClassInfo}
use dubbogo.Hessian.Encoder.{count, count_entries, enc_value, Encoder}
use dubbogo.Hessian.Encoder.Plain.{
  IsPlain, ArePlain, AreEntries, bytes_of, bytes_of_items, bytes_of_entries, adding,
  enc_value-plain,
}
use dubbogo.Hessian.Decoder.{
  Decoding, is_negative, is_hashable, read_items, list_body, list_size, read_entry, map_round,
  read_entries, dec_untyped_map, dec_list, decode_tagged, decode_from, decode, Decoder,
  ObjectReader,
}
use dubbogo.Hessian.Decoder.Tags.{
  OpensWith, enc_int32-OpensWith, enc_int64-OpensWith, enc_binary-OpensWith, enc_string-OpensWith,
}
use dubbogo.Hessian.Decoder.Leaves.{
  depth, depth_items, depth_entries, refs_after, refs_after_items, refs_after_entries, decoder,
  int32_back, int64_back, text_back, binary_back, date_back, double_back, bool_back, null_back,
}

module _ (lib : ReaderLib) (fl : FloatLib) (objects : ObjectReader) (classes : List ClassInfo) where
  abbrev at : List ℕ → ℕ → Decoder
  at s n = decoder s n classes

  abbrev run : ℕ → Decoding Value
  run = decode lib fl objects

  abbrev ReadsBack : Value → Type 0
  ReadsBack v =
      (f n : ℕ) (rest : List ℕ)
      → depth v ≤ f
      → run f (at (bytes_of fl v ++ rest) n) ≡ (ok v, at rest (refs_after v n))

  abbrev ItemsBack : ℕ → Items → Type 0
  ItemsBack f xs =
      (n : ℕ) (rest : List ℕ)
      → read_items (run f) (count xs) (at (bytes_of_items fl xs ++ rest) n)
        ≡ (ok xs, at rest (refs_after_items xs n))

  list_back :
      (f n : ℕ) (xs : Items) (rest : List ℕ)
      → count xs < 2 ^ 31
      → ItemsBack f xs
      → run (suc f) (at (bytes_of fl (list xs) ++ rest) n)
        ≡ (ok (list xs), at rest (refs_after (list xs) n))
  unfolding refs_after bytes_of decode decode_from decode_tagged dec_list list_size list_body
  list_back f n xs rest small items =
      let added = bytes_of_items fl xs in
      let size = (dec_int32_exact (count xs) (added ++ rest) (omega arith)).1 (omega arith) in
      let fits : is_negative (count xs) ≡ false = ground arith in
      rw (append_assoc (enc_int32 (count xs) []) added rest, size, fits, items (suc n) rest) refl

  -- The bytes of a plain value do not open with the end of a map.
  pub plain_open : (v : Value) → IsPlain fl v → OpensWith (λ tag. not (tag == b'Z')) (bytes_of fl v)
  unfolding IsPlain bytes_of
  plain_open null h = (b'N', [], refl, refl)
  plain_open (bool true) h = (b'T', [], refl, refl)
  plain_open (bool false) h = (b'F', [], refl, refl)
  plain_open (int32 v) h =
      let (tag, ts, e, class) = enc_int32-OpensWith v h in (tag, ts, e, ground arith)
  plain_open (int64 v) h =
      let (tag, ts, e, class) = enc_int64-OpensWith v h in (tag, ts, e, ground arith)
  plain_open (date t) h = (0x4a, _, refl, refl)
  plain_open (double v) h = (b'D', _, refl, refl)
  plain_open (text v) h =
      let (tag, ts, e, class) = enc_string-OpensWith lib fl v in (tag, ts, e, ground arith)
  plain_open (binary v) h =
      let (tag, ts, e, class) = enc_binary-OpensWith v h in (tag, ts, e, ground arith)
  plain_open (list xs) h = (0x58, _, refl, refl)
  plain_open (go_map es) h = (b'H', _, refl, refl)
  plain_open (int16 v) h = absurd h
  plain_open (typed_map es) h = absurd h
  plain_open (ref i) h = absurd h
  plain_open (enum n) h = absurd h
  plain_open (pojo o fs) h = absurd h
  plain_open (struct_value t fs) h = absurd h

  abbrev EntriesBack : ℕ → Entries → Type 0
  EntriesBack f es =
      (g n : ℕ) (rest : List ℕ)
      → count_entries es < g
      → read_entries (run f) g (at (bytes_of_entries fl es ++ (b'Z' ∷ rest)) n)
        ≡ (ok es, at rest (refs_after_entries es n))

  round_goes_on :
      (f : ℕ) (rounds : Decoding Entries) (tag : ℕ) (ts s : List ℕ) (d : Decoder)
      → s ≡ tag ∷ ts
      → tag == b'Z' ≡ false
      → map_round (run f) rounds s d ≡ read_entry (run f) rounds (run f d)
  unfolding map_round
  round_goes_on f rounds tag ts s d e ends = rw (e, ends) refl

  -- One entry in front of others.
  entry_back :
      (f g n : ℕ) (k v : Value) (es : Entries) (rest : List ℕ)
      → is_hashable k ≡ true
      → OpensWith (λ tag. not (tag == b'Z')) (bytes_of fl k)
      → ((m : ℕ) (s : List ℕ) → run f (at (bytes_of fl k ++ s) m) ≡ (ok k, at s (refs_after k m)))
      → ((m : ℕ) (s : List ℕ) → run f (at (bytes_of fl v ++ s) m) ≡ (ok v, at s (refs_after v m)))
      → ((m : ℕ)
          → read_entries (run f) g (at (bytes_of_entries fl es ++ (b'Z' ∷ rest)) m)
            ≡ (ok es, at rest (refs_after_entries es m)))
      → read_entries (run f) (suc g) (at (bytes_of_entries fl (entry k v es) ++ (b'Z' ∷ rest)) n)
        ≡ (ok (entry k v es), at rest (refs_after_entries (entry k v es) n))
  unfolding read_entries bytes_of refs_after map_round read_entry
  entry_back f g n k v es rest hashable (tag, ts, e, not_end) key value others =
      let tail = bytes_of_entries fl es ++ (b'Z' ∷ rest) in
      let whole : (bytes_of fl k ++ (bytes_of fl v ++ bytes_of_entries fl es)) ++ (b'Z' ∷ rest)
          ≡ bytes_of fl k ++ (bytes_of fl v ++ tail) =
        append_assoc (bytes_of fl k) (bytes_of fl v ++ bytes_of_entries fl es) (b'Z' ∷ rest)
        ∙ ap (λ l. bytes_of fl k ++ l)
            (append_assoc (bytes_of fl v) (bytes_of_entries fl es) (b'Z' ∷ rest)) in
      let ends : tag == b'Z' ≡ false = ground arith in
      let round =
        round_goes_on f (read_entries (run f) g) tag (ts ++ (bytes_of fl v ++ tail))
          (bytes_of fl k ++ (bytes_of fl v ++ tail))
          (at (bytes_of fl k ++ (bytes_of fl v ++ tail)) n)
          (ap (λ l. l ++ (bytes_of fl v ++ tail)) e) ends in
      rw
        (
          whole,
          round,
          key n (bytes_of fl v ++ tail),
          value (refs_after k n) tail,
          hashable,
          others (refs_after v (refs_after k n)),
        )
        refl

  map_back :
      (f n : ℕ) (es : Entries) (rest : List ℕ)
      → count_entries es ≤ length (bytes_of_entries fl es)
      → EntriesBack f es
      → run (suc f) (at (bytes_of fl (go_map es) ++ rest) n)
        ≡ (ok (go_map es), at rest (refs_after (go_map es) n))
  unfolding refs_after bytes_of decode decode_from decode_tagged dec_untyped_map
  map_back f n es rest few entries =
      let added = bytes_of_entries fl es in
      let g = suc (length (added ++ (b'Z' ∷ rest))) in
      let enough : count_entries es < g = omega (arith, length-append added (b'Z' ∷ rest)) in
      rw (append_assoc added (b'Z' ∷ []) rest, entries g (suc n) rest enough) refl

  enough_bytes :
      (es : Entries) → AreEntries fl es → count_entries es ≤ length (bytes_of_entries fl es)
  unfolding AreEntries bytes_of_entries count_entries
  enough_bytes no_entries h = omega arith
  enough_bytes (entry k v es) (hashable, hk, hv, hs) =
      let (tag, ts, e, not_end) = plain_open k hk in
      omega (
        arith,
        ap length e,
        enough_bytes es hs,
        length-append (bytes_of fl k) (bytes_of fl v ++ bytes_of_entries fl es),
        length-append (bytes_of fl v) (bytes_of_entries fl es),
      )

  no_items_back : (f : ℕ) → ItemsBack f no_items
  unfolding read_items count bytes_of refs_after
  no_items_back f n rest = refl

  item_back :
      (f n : ℕ) (v : Value) (xs : Items) (rest : List ℕ)
      → ((m : ℕ) (s : List ℕ) → run f (at (bytes_of fl v ++ s) m) ≡ (ok v, at s (refs_after v m)))
      → ItemsBack f xs
      → read_items (run f) (count (item v xs)) (at (bytes_of_items fl (item v xs) ++ rest) n)
        ≡ (ok (item v xs), at rest (refs_after_items (item v xs) n))
  unfolding read_items count bytes_of refs_after
  item_back f n v xs rest first others =
      let later = bytes_of_items fl xs ++ rest in
      rw
        (
          append_assoc (bytes_of fl v) (bytes_of_items fl xs) rest,
          first n later,
          others (refs_after v n) rest,
        )
        refl

  no_entries_back :
      (f g n : ℕ) (rest : List ℕ)
      → 0 < g
      → read_entries (run f) g (at (b'Z' ∷ rest) n) ≡ (ok no_entries, at rest n)
  unfolding read_entries map_round
  no_entries_back f zero n rest h = absurd (omega arith)
  no_entries_back f (suc g) n rest h = refl

module _ (lib : ReaderLib) (fl : FloatLib) (objects : ObjectReader) (classes : List ClassInfo)
    (whole : HoldsAll lib) where
  mutual
    unfolding IsPlain depth count_entries bytes_of refs_after

    pub value_back : (v : Value) → IsPlain fl v → ReadsBack lib fl objects classes v
    value_back null h f n rest k = null_back lib fl objects classes f n rest k
    value_back (bool v) h f n rest k = bool_back lib fl objects classes v f n rest k
    value_back (int32 v) h f n rest k = int32_back lib fl objects classes v h f n rest k
    value_back (int64 v) h f n rest k = int64_back lib fl objects classes v h f n rest k
    value_back (date t) h f n rest k = date_back lib fl objects classes t whole h f n rest k
    value_back (double v) h f n rest k = double_back lib fl objects classes v h.0 f n rest k
    value_back (text v) h f n rest k = text_back lib fl objects classes v h f n rest k
    value_back (binary v) h f n rest k = binary_back lib fl objects classes v h f n rest k
    value_back (list xs) h zero n rest k = absurd (omega arith)
    value_back (list xs) (small, plain) (suc f) n rest k =
        list_back lib fl objects classes f n xs rest small (items_back xs plain f (omega arith))
    value_back (go_map es) h zero n rest k = absurd (omega arith)
    value_back (go_map es) (some_entry, plain) (suc f) n rest k =
        map_back lib fl objects classes f n es rest (enough_bytes lib fl objects classes es plain)
          (entries_back es plain f (omega arith))
    value_back (int16 v) h f n rest k = absurd h
    value_back (typed_map es) h f n rest k = absurd h
    value_back (ref i) h f n rest k = absurd h
    value_back (enum i) h f n rest k = absurd h
    value_back (pojo o fs) h f n rest k = absurd h
    value_back (struct_value t fs) h f n rest k = absurd h

    pub items_back :
        (xs : Items)
        → ArePlain fl xs
        → (f : ℕ) → depth_items xs ≤ f
        → ItemsBack lib fl objects classes f xs
    items_back no_items h f k n rest = no_items_back lib fl objects classes f n rest
    items_back (item v xs) (h, hs) f k n rest =
        item_back lib fl objects classes f n v xs rest (λ m s. value_back v h f m s (omega arith))
          (items_back xs hs f (omega arith))

    entries_back :
        (es : Entries)
        → AreEntries fl es
        → (f : ℕ) → depth_entries es ≤ f
        → EntriesBack lib fl objects classes f es
    entries_back no_entries h f k g n rest few =
        no_entries_back lib fl objects classes f g n rest few
    entries_back (entry key v es) (hashable, hk, hv, hs) f k zero n rest few = absurd (omega arith)
    entries_back (entry key v es) (hashable, hk, hv, hs) f k (suc g) n rest few =
        entry_back lib fl objects classes f g n key v es rest hashable
          (plain_open lib fl objects classes key hk) (λ m s. value_back key hk f m s (omega arith))
          (λ m s. value_back v hv f m s (omega arith))
          (λ m. entries_back es hs f (omega arith) g m rest (omega arith))

-- A plain value that `Encode` appends to a buffer is read back by `Decode`, from whatever state, with
-- what follows it left unread and a reference counted for each list and map in it, where one read
-- gives whatever is left of the input. Plain are null, Booleans, dates of whole milliseconds, doubles
-- that Encode writes in nine bytes, binary data that is not empty, texts of Unicode scalar values,
-- integers that read back (0 and above, and below -0x40000), and lists and non-empty maps of these.
pub decode-enc_value :
    (lib : ReaderLib) (fl : FloatLib) (objects : ObjectReader) (to_lower : Text → Text) (v : Value)
    (e : Encoder) (rest : List ℕ) (f n : ℕ) (classes : List ClassInfo)
    → HoldsAll lib
    → IsPlain fl v
    → depth v ≤ f
    → (added : List ℕ) × (enc_value fl to_lower v e ≡ (ok tt, adding added e))
      × (decode lib fl objects f (decoder (added ++ rest) n classes)
          ≡ (ok v, decoder rest (refs_after v n) classes))
decode-enc_value lib fl objects to_lower v e rest f n classes whole plain deep = (
  bytes_of fl v,
  enc_value-plain fl to_lower v e plain,
  value_back lib fl objects classes whole v plain f n rest deep,
)
