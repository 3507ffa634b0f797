-- ===== src/Hessian/Request/Body.antt =====
-- The body of a request is read back value by value.
use mathlib.Core.List.{append-nil, append_assoc}
use mathlib.Core.List.{append-nil, append_assoc}
use dubbogo.Hessian.Ints.{enc_byte}
use dubbogo.Base.{
  ℕ, ◌+◌, ◌-◌, ◌≡◌, refl, sym, ap, ◌∙◌, subst, inl, inr, Bool, true, Option, none, some, List, [],
  ◌∷◌, ◌++◌, arith, ltb, if◌then◌else◌, Bool-cases, length, All, Outcome, bad_length, ok, err,
  panic, stuck, codes,
}
use dubbogo.Hessian.Text.{Text}
use dubbogo.Hessian.Header.{header_length, bytes32, put_uint64, request_header, default_len, pack}
use dubbogo.Hessian.Values.{
  Value, Items, Entries, FloatLib, text, go_map, typed_map, no_items, item, no_entries, entry,
}
use dubbogo.Hessian.Strings.Runes.{IsRune}
use dubbogo.Hessian.Encoder.{
  is_empty, Encoded, then_encode, with_buffer, wrote, enc_key, enc_value, enc_entries, enc_keyed,
  Encoder,
}
use dubbogo.Hessian.Encoder.Plain.{
  IsPlain, ArePlain, AreEntries, bytes_of, bytes_of_items, adding, enc_value-plain,
}
use dubbogo.Hessian.Decoder.{is_hashable}
use dubbogo.Hessian.Request.{
  arg_values, body_values, no_error, put_length, finish, encode_each, Request, Argument,
}

-- Entries of texts.
abbrev pub IsText : Value → Type 0
IsText v = (t : Text) × (v ≡ text t) × All IsRune t

abbrev pub AreTexts : Entries → Type 0
AreTexts no_entries = Unit {0}
AreTexts (entry k v es) = IsText k × IsText v × AreTexts es

-- What is asked of the order of the keys: it makes entries of texts of entries of texts, some of
-- some, and none deeper.
abbrev pub KeepsTexts : (Entries → Entries) → Type 0
KeepsTexts order =
    (es : Entries) → AreTexts es → AreTexts (order es) × (is_empty (order es) ≡ is_empty es)

module _ (fl : FloatLib) (to_lower : Text → Text) where
  text-IsPlain : (v : Value) → IsText v → (is_hashable v ≡ true) × IsPlain fl v
  unfolding IsPlain
  text-IsPlain v (t, e, h) = (rw e refl, subst (λ w. IsPlain fl w) (sym e) h)

  pub texts-entries : (es : Entries) → AreTexts es → AreEntries fl es
  unfolding IsPlain
  texts-entries no_entries h = tt
  texts-entries (entry k v es) (hk, hv, hs) =
      ((text-IsPlain k hk).0, (text-IsPlain k hk).1, (text-IsPlain v hv).1, texts-entries es hs)

  text_key_lem : (k : Value) (e : Encoder) → IsText k → enc_key fl k e ≡ enc_value fl to_lower k e
  unfolding enc_key enc_value
  text_key_lem k e (t, same, h) = rw same refl

  then_same :
      (r : Encoded) (k l : Encoder → Encoded)
      → ((e : Encoder) → k e ≡ l e)
      → then_encode r (λ u. k) ≡ then_encode r (λ u. l)
  then_same (ok u, e) k l h = h e
  then_same (err x, e) k l h = refl
  then_same (panic, e) k l h = refl
  then_same (stuck, e) k l h = refl

  keyed-entries :
      (es : Entries) (e : Encoder)
      → AreTexts es
      → enc_keyed fl to_lower es e ≡ enc_entries fl to_lower es e
  unfolding enc_value
  keyed-entries no_entries e h = refl
  keyed-entries (entry k v es) e (hk, hv, hs) =
      ap
        (λ r.
          then_encode (then_encode r (λ u. enc_value fl to_lower v))
            (λ u. enc_keyed fl to_lower es))
        (text_key_lem k e hk)
      ∙ then_same _ (enc_keyed fl to_lower es) (enc_entries fl to_lower es)
          (λ e'. keyed-entries es e' hs)

  -- A map of texts is written like an untyped one.
  texts_map :
      (es : Entries) (e : Encoder)
      → AreTexts es
      → enc_value fl to_lower (typed_map es) e ≡ enc_value fl to_lower (go_map es) e
  unfolding enc_value
  texts_map es e h =
      let opened = with_buffer e (e.buffer ++ (b'H' ∷ [])) in
      ap
        (λ r.
          if is_empty es
          then (ok tt, e)
          else then_encode r (λ u. wrote (λ b. enc_byte b (b'Z' ∷ []))))
        (keyed-entries es opened h)

  encode_each-plain :
      (vs : Items) (e : Encoder)
      → ArePlain fl vs
      → encode_each fl to_lower vs e ≡ (ok tt, adding (bytes_of_items fl vs) e)
  unfolding encode_each IsPlain bytes_of no_error
  encode_each-plain no_items e h = ap (λ b. (ok tt, with_buffer e b)) (sym (append-nil e.buffer))
  encode_each-plain (item v vs) e (h, hs) =
      let x = bytes_of fl v in
      ap (λ r. then_encode (no_error r) (λ u. encode_each fl to_lower vs))
        (enc_value-plain fl to_lower v e h)
      ∙ encode_each-plain vs (adding x e) hs
      ∙ ap (λ b. (ok tt, with_buffer e b)) (append_assoc e.buffer x (bytes_of_items fl vs))

  -- Values with a map of texts at their end.
  abbrev ending : Items → Value → Items
  ending no_items last = item last no_items
  ending (item v vs) last = item v (ending vs last)

  encode_each-ending :
      (vs : Items) (es : Entries) (e : Encoder)
      → AreTexts es
      → encode_each fl to_lower (ending vs (typed_map es)) e
        ≡ encode_each fl to_lower (ending vs (go_map es)) e
  unfolding encode_each
  encode_each-ending no_items es e h =
      ap (λ r. then_encode (no_error r) (λ u. encode_each fl to_lower no_items)) (texts_map es e h)
  encode_each-ending (item v vs) es e h =
      then_same (no_error (enc_value fl to_lower v e))
        (encode_each fl to_lower (ending vs (typed_map es)))
        (encode_each fl to_lower (ending vs (go_map es))) (λ e'. encode_each-ending vs es e' h)

  -- The values in front of the last one.
  abbrev front : Request → Text → List Argument → Items
  front q types args = item (text (codes "2.5.4")) (
      item (text q.target) (
        item (text q.version)
          (item (text q.method) (item (text types) (arg_values args no_items)))))

  arg_values-ending :
      (args : List Argument) (last : Value)
      → arg_values args (item last no_items) ≡ ending (arg_values args no_items) last
  unfolding arg_values
  arg_values-ending [] last = refl
  arg_values-ending (a ∷ args) last = ap (item a.value) (arg_values-ending args last)

  body_values-ending :
      (q : Request) (types : Text) (args : List Argument) (last : Value)
      → body_values q types args last ≡ ending (front q types args) last
  unfolding body_values
  body_values-ending q types args last =
      ap
        (λ more. item (text (codes "2.5.4")) (
          item (text q.target)
            (item (text q.version) (item (text q.method) (item (text types) more)))))
        (arg_values-ending args last)

  -- The body as it would be with an untyped map.
  pub encode_each-body :
      (q : Request) (types : Text) (args : List Argument) (es : Entries) (e : Encoder)
      → AreTexts es
      → ArePlain fl (body_values q types args (go_map es))
      → encode_each fl to_lower (body_values q types args (typed_map es)) e
        ≡ (ok tt, adding (bytes_of_items fl (body_values q types args (go_map es))) e)
  encode_each-body q types args es e texts plain =
      ap (λ vs. encode_each fl to_lower vs e) (body_values-ending q types args (typed_map es))
      ∙ encode_each-ending (front q types args) es e texts
      ∙ ap (λ vs. encode_each fl to_lower vs e) (sym (body_values-ending q types args (go_map es)))
      ∙ encode_each-plain (body_values q types args (go_map es)) e plain

-- The end of `packRequest` behind a body is `pack` of it.
abbrev pub packed : Option (List ℕ) → Outcome (List ℕ)
packed none = err bad_length
packed (some b) = ok b

pub finish-pack :
    (hb : Bool) (id : ℕ) (body : List ℕ) (e : Encoder)
    → (finish (ok tt, with_buffer e (request_header hb id 0 ++ body))).0 ≡ packed (pack hb id body)
unfolding finish pack request_header put_uint64 bytes32 put_length
finish-pack hb id body e =
    let n = length body in
    let whole : length (request_header hb id 0 ++ body) ≡ header_length + n = omega arith in
    let less : header_length + n - header_length ≡ n = omega arith in
    let patched = λ (m : ℕ).
      ◌≡◌ {A = Outcome (List ℕ)}
        (if ltb default_len m
          then err bad_length
          else ok (request_header hb id (m - header_length) ++ body))
        (packed (pack hb id body)) in
    subst patched (sym whole) (
      rw less (elim (Bool-cases (ltb default_len (header_length + n))) [
        | inl y ↦ rw y refl
        | inr m ↦ rw m refl
      ]))
