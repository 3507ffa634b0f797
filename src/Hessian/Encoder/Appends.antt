-- ===== src/Hessian/Encoder/Appends.antt =====
-- The encoder takes nothing back, whatever comes of a call.
use mathlib.Core.List.{append-nil, append_assoc}
use dubbogo.Base.{
  ℕ, ◌%◌, ◌^◌, ◌≡◌, refl, sym, ap, ◌∙◌, Bool, true, false, Option, none, some, List, [], ◌∷◌, ◌++◌,
  arith, if◌then◌else◌, Outcome, ok, err, panic, stuck,
}
use dubbogo.Hessian.Text.{Text}
use dubbogo.Hessian.Ints.{enc_byte, enc_int32, bytes64}
use dubbogo.Hessian.Values.{
  Value, Items, Entries, FloatLib, null, bool, int16, int32, int64, date, double, text, binary,
  list, go_map, typed_map, ref, enum, pojo, struct_value, no_items, item, no_entries, entry,
}
use dubbogo.Hessian.Doubles.{enc_float, unix_millis, enc_date_in_ms}
use dubbogo.Hessian.Classes.{Shape, Pojo, ClassInfo, PojoRegistry, struct, ptr, other}
use dubbogo.Hessian.Encoder.{
  count, is_empty, Encoded, then_encode, with_buffer, wrote, find_class, class_def_at, define,
  instance_head, no_fields, class_index, enc_struct_head, enc_head, enc_key, enc_value, enc_items,
  enc_entries, enc_keyed, Encoder,
}
use dubbogo.Hessian.Encoder.Plain.{
  enc_int32-append, enc_int64-append, enc_string-append, enc_binary-append,
}
use dubbogo.Hessian.Encoder.Struct.{instance_head-append}

-- The buffer and the list of classes of `e` with what was put behind them.
abbrev pub Extends : Encoder → Encoder → Type 0
Extends e e' =
    (x : List ℕ) × (cs : List ClassInfo) × (e'.buffer ≡ e.buffer ++ x)
    × (e'.class_info_list ≡ e.class_info_list ++ cs)

Extends-refl : (e : Encoder) → Extends e e
Extends-refl e = ([], [], sym (append-nil e.buffer), sym (append-nil e.class_info_list))

Extends-trans : (a b c : Encoder) → Extends a b → Extends b c → Extends a c
Extends-trans a b c (x, cs, bx, bc) (y, ds, cy, cd) = (
  x ++ y,
  cs ++ ds,
  cy ∙ ap (λ l. l ++ y) bx ∙ append_assoc a.buffer x y,
  cd ∙ ap (λ l. l ++ ds) bc ∙ append_assoc a.class_info_list cs ds,
)

wrote-Extends : (e : Encoder) (b x : List ℕ) → b ≡ e.buffer ++ x → Extends e (with_buffer e b)
wrote-Extends e b x h = (x, [], h, sym (append-nil e.class_info_list))

then_encode-Extends :
    {A : Type 0} (r : Outcome A × Encoder) (k : A → Encoder → Encoded) (e : Encoder)
    → Extends e r.1
    → ((a : A) (e' : Encoder) → Extends e' (k a e').1)
    → Extends e (then_encode r k).1
then_encode-Extends (ok a, e') k e first second = Extends-trans e e' (k a e').1 first (second a e')
then_encode-Extends (err x, e') k e first second = first
then_encode-Extends (panic, e') k e first second = first
then_encode-Extends (stuck, e') k e first second = first

after-Extends :
    (r : Encoded) (k : Encoder → Encoded) (e : Encoder)
    → Extends e r.1
    → ((e' : Encoder) → Extends e' (k e').1)
    → Extends e (then_encode r (λ u. k)).1
after-Extends r k e first second = then_encode-Extends r (λ u. k) e first (λ u. second)

define-Extends : (r : Outcome (Option ℕ) × PojoRegistry) (e : Encoder) → Extends e (define r e).1
unfolding define
define-Extends (ok i, r) e = ((class_def_at i r).buffer, class_def_at i r ∷ [], refl, refl)
define-Extends (err x, r) e = Extends-refl e
define-Extends (panic, r) e = Extends-refl e
define-Extends (stuck, r) e = Extends-refl e

class_index-Extends :
    (to_lower : Text → Text) (o : Pojo) (known : Option ℕ) (e : Encoder)
    → Extends e (class_index to_lower o known e).1
unfolding class_index
class_index-Extends to_lower o (some i) e = Extends-refl e
class_index-Extends to_lower o none e = define-Extends _ e

enc_struct_head-Extends :
    (to_lower : Text → Text) (o : Pojo) (e : Encoder) → Extends e (enc_struct_head to_lower o e).1
unfolding enc_struct_head
enc_struct_head-Extends to_lower o e =
    then_encode-Extends _ (λ idx. wrote (instance_head idx)) e
      (class_index-Extends to_lower o (find_class o.java_class_name e.class_info_list) e)
      (λ idx e'. wrote-Extends e' _ _ (instance_head-append idx e'.buffer))

no_fields-Extends : (r : Encoded) (e : Encoder) → Extends e r.1 → Extends e (no_fields r).1
unfolding no_fields
no_fields-Extends (ok u, e') e h = h
no_fields-Extends (err x, e') e h = h
no_fields-Extends (panic, e') e h = h
no_fields-Extends (stuck, e') e h = h

enc_head-Extends :
    (to_lower : Text → Text) (s : Shape) (o : Pojo) (e : Encoder)
    → Extends e (enc_head to_lower s o e).1
unfolding enc_head
enc_head-Extends to_lower (struct t) o e = enc_struct_head-Extends to_lower o e
enc_head-Extends to_lower (ptr none) o e = Extends-refl e
enc_head-Extends to_lower (ptr (some t)) o e =
    no_fields-Extends _ e (enc_struct_head-Extends to_lower o e)
enc_head-Extends to_lower (other t) o e = Extends-refl e

enc_float-append : (fl : FloatLib) (v : ℕ) (b : List ℕ) → enc_float fl v b ≡ b ++ enc_float fl v []
unfolding enc_float
enc_float-append fl v b = ground arith

list_head-append :
    (n : ℕ) (b : List ℕ) → enc_int32 n (b ++ (0x58 ∷ [])) ≡ b ++ (0x58 ∷ enc_int32 n [])
list_head-append n b =
    enc_int32-append n (b ++ (0x58 ∷ [])) ∙ append_assoc b (0x58 ∷ []) (enc_int32 n [])

module _ (fl : FloatLib) (to_lower : Text → Text) where
  enc_key-Extends : (k : Value) (e : Encoder) → Extends e (enc_key fl k e).1
  unfolding enc_key
  enc_key-Extends (bool v) e = wrote-Extends e _ ((if v then b'T' else b'F') ∷ []) refl
  enc_key-Extends (int32 v) e = wrote-Extends e _ _ (enc_int32-append v e.buffer)
  enc_key-Extends (enum v) e = wrote-Extends e _ _ (enc_int32-append v e.buffer)
  enc_key-Extends (int64 v) e = wrote-Extends e _ _ (enc_int64-append v e.buffer)
  enc_key-Extends (double v) e = wrote-Extends e _ _ (enc_float-append fl v e.buffer)
  enc_key-Extends (text v) e = wrote-Extends e _ _ (enc_string-append v e.buffer)
  enc_key-Extends null e = Extends-refl e
  enc_key-Extends (int16 v) e = Extends-refl e
  enc_key-Extends (date t) e = Extends-refl e
  enc_key-Extends (binary v) e = Extends-refl e
  enc_key-Extends (list xs) e = Extends-refl e
  enc_key-Extends (go_map es) e = Extends-refl e
  enc_key-Extends (typed_map es) e = Extends-refl e
  enc_key-Extends (ref i) e = Extends-refl e
  enc_key-Extends (pojo o fs) e = Extends-refl e
  enc_key-Extends (struct_value t fs) e = Extends-refl e

  -- A map between its tags, where it has an entry.
  map-Extends :
      (empty : Bool) (k : Encoder → Encoded) (e : Encoder)
      → ((e' : Encoder) → Extends e' (k e').1)
      → Extends e
          (if empty
            then (ok tt, e)
            else then_encode
                (then_encode (wrote (λ b. enc_byte b (b'H' ∷ [])) e) (λ u. k))
                (λ u. wrote (λ b. enc_byte b (b'Z' ∷ [])))).1
  map-Extends true k e h = Extends-refl e
  map-Extends false k e h =
      let open_map = wrote (λ b. enc_byte b (b'H' ∷ [])) e in
      let close_map = λ (u : Unit {0}). wrote (λ b. enc_byte b (b'Z' ∷ [])) in
      let opened = wrote-Extends e (e.buffer ++ (b'H' ∷ [])) (b'H' ∷ []) refl in
      then_encode-Extends {A = Unit {0}} (then_encode open_map (λ u. k)) close_map e
        (then_encode-Extends {A = Unit {0}} open_map (λ u. k) e opened (λ u. h))
        (λ u e'. wrote-Extends e' (e'.buffer ++ (b'Z' ∷ [])) (b'Z' ∷ []) refl)

  mutual
    unfolding enc_value enc_date_in_ms

    each-Extends : (v : Value) (e : Encoder) → Extends e (enc_value fl to_lower v e).1
    each-Extends null e = wrote-Extends e _ (b'N' ∷ []) refl
    each-Extends (bool v) e = wrote-Extends e _ ((if v then b'T' else b'F') ∷ []) refl
    each-Extends (int16 v) e = Extends-refl e
    each-Extends (int32 v) e = wrote-Extends e _ _ (enc_int32-append v e.buffer)
    each-Extends (int64 v) e = wrote-Extends e _ _ (enc_int64-append v e.buffer)
    each-Extends (date t) e = wrote-Extends e _ (0x4a ∷ bytes64 (unix_millis t)) refl
    each-Extends (double v) e = wrote-Extends e _ _ (enc_float-append fl v e.buffer)
    each-Extends (text v) e = wrote-Extends e _ _ (enc_string-append v e.buffer)
    each-Extends (binary v) e = wrote-Extends e _ _ (enc_binary-append v e.buffer)
    each-Extends (list xs) e =
        after-Extends (wrote (λ b. enc_int32 (count xs % 2 ^ 32) (enc_byte b (0x58 ∷ []))) e)
          (enc_items fl to_lower xs) e
          (wrote-Extends e _ _ (list_head-append (count xs % 2 ^ 32) e.buffer))
          (enc_items-Extends xs)
    each-Extends (go_map es) e =
        map-Extends (is_empty es) (enc_entries fl to_lower es) e (enc_entries-Extends es)
    each-Extends (typed_map es) e =
        map-Extends (is_empty es) (enc_keyed fl to_lower es) e (enc_keyed-Extends es)
    each-Extends (ref i) e = Extends-refl e
    each-Extends (enum n) e = Extends-refl e
    each-Extends (pojo o fs) e =
        after-Extends (enc_head to_lower o.shape o e) (enc_items fl to_lower fs) e
          (enc_head-Extends to_lower o.shape o e) (enc_items-Extends fs)
    each-Extends (struct_value t fs) e = Extends-refl e

    enc_items-Extends : (xs : Items) (e : Encoder) → Extends e (enc_items fl to_lower xs e).1
    enc_items-Extends no_items e = Extends-refl e
    enc_items-Extends (item v xs) e =
        after-Extends (enc_value fl to_lower v e) (enc_items fl to_lower xs) e (each-Extends v e)
          (enc_items-Extends xs)

    enc_entries-Extends : (es : Entries) (e : Encoder) → Extends e (enc_entries fl to_lower es e).1
    enc_entries-Extends no_entries e = Extends-refl e
    enc_entries-Extends (entry k v es) e =
        after-Extends (then_encode (enc_value fl to_lower k e) (λ u. enc_value fl to_lower v))
          (enc_entries fl to_lower es) e
          (after-Extends (enc_value fl to_lower k e) (enc_value fl to_lower v) e (each-Extends k e)
            (each-Extends v))
          (enc_entries-Extends es)

    enc_keyed-Extends : (es : Entries) (e : Encoder) → Extends e (enc_keyed fl to_lower es e).1
    enc_keyed-Extends no_entries e = Extends-refl e
    enc_keyed-Extends (entry k v es) e =
        after-Extends (then_encode (enc_key fl k e) (λ u. enc_value fl to_lower v))
          (enc_keyed fl to_lower es) e
          (after-Extends (enc_key fl k e) (enc_value fl to_lower v) e (enc_key-Extends k e)
            (each-Extends v))
          (enc_keyed-Extends es)

-- Whatever comes of `Encode`, an error or a panic included, the buffer and the list of classes are
-- what they were with something put behind.
pub enc_value-Extends :
    (fl : FloatLib) (to_lower : Text → Text) (v : Value) (e : Encoder)
    → Extends e (enc_value fl to_lower v e).1
enc_value-Extends fl to_lower v e = each-Extends fl to_lower v e
