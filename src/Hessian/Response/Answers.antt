-- ===== src/Hessian/Response/Answers.antt =====
-- What comes of a body that holds a type and a value.
use dubbogo.Hessian.Words.{neg32}
use dubbogo.Hessian.Encoder.{count}
use dubbogo.Hessian.Doubles.{HoldsAll}
use dubbogo.Base.{
  ℕ, suc, ◌≤◌, ◌<◌, ◌≡◌, refl, ap, ◌∙◌, List, [], ◌∷◌, ◌++◌, arith, if◌then◌else◌, length,
  length-append, ReaderLib, Bool, true, false, some, ok, panic,
}
use dubbogo.Hessian.Ints.{enc_int32}
use dubbogo.Hessian.Values.{
  Value, Items, Entries, FloatLib, null, bool, int16, int32, int64, date, double, text, binary,
  list, go_map, typed_map, ref, enum, pojo, struct_value, no_items, item, no_entries, entry,
}
use dubbogo.Hessian.Encoder.Plain.{
  IsPlain, ArePlain, AreEntries, bytes_of, bytes_of_items, bytes_of_entries,
}
use dubbogo.Hessian.Decoder.{decode, ObjectReader}
use dubbogo.Hessian.Decoder.Leaves.{depth, depth_items, depth_entries, refs_after, decoder}
use dubbogo.Hessian.Decoder.RoundTrip.{plain_open, value_back}
use dubbogo.Hessian.Response.{
  reflect_response, reflect_kind, set_target, body_of_kind, body_of_type, typed_body,
  unpack_response_body, Target, exception, answered, null_answer, other_type,
}

-- The values that are set in the target as they are.
abbrev pub is_scalar : Value → Bool
is_scalar (bool v) = true
is_scalar (int32 v) = true
is_scalar (int64 v) = true
is_scalar (double v) = true
is_scalar (text v) = true
is_scalar _ = false

-- A target that is a pointer takes a scalar of its type; a scalar of another type panics.
reflect-scalar :
    (t : Target) (v : Value)
    → is_scalar v ≡ true
    → t.is_nil ≡ false
    → t.is_pointer ≡ true
    → reflect_response t v ≡ (if t.takes v then ok (some v) else panic)
unfolding reflect_response reflect_kind set_target
reflect-scalar t (bool v) h there pointer = rw (there, pointer) refl
reflect-scalar t (int32 v) h there pointer = rw (there, pointer) refl
reflect-scalar t (int64 v) h there pointer = rw (there, pointer) refl
reflect-scalar t (double v) h there pointer = rw (there, pointer) refl
reflect-scalar t (text v) h there pointer = rw (there, pointer) refl
reflect-scalar t _ h there pointer = absurd (cc)

-- Values nest no deeper than they have bytes.
module _ (lib : ReaderLib) (fl : FloatLib) (objects : ObjectReader) where
  some_bytes : (v : Value) → IsPlain fl v → 0 < length (bytes_of fl v)
  some_bytes v h =
      let (tag, ts, e, class) = plain_open lib fl objects [] v h in omega (arith, ap length e)

  mutual
    unfolding IsPlain bytes_of depth

    depth-bytes_of : (v : Value) → IsPlain fl v → depth v ≤ length (bytes_of fl v)
    depth-bytes_of null h = some_bytes null h
    depth-bytes_of (bool v) h = some_bytes (bool v) h
    depth-bytes_of (int16 v) h = absurd h
    depth-bytes_of (int32 v) h = some_bytes (int32 v) h
    depth-bytes_of (int64 v) h = some_bytes (int64 v) h
    depth-bytes_of (date t) h = some_bytes (date t) h
    depth-bytes_of (double v) h = some_bytes (double v) h
    depth-bytes_of (text v) h = some_bytes (text v) h
    depth-bytes_of (binary v) h = some_bytes (binary v) h
    depth-bytes_of (list xs) (small, plain) = omega (
      arith,
      depth-bytes_of_items xs plain,
      length-append (enc_int32 (count xs) []) (bytes_of_items fl xs),
    )
    depth-bytes_of (go_map es) (some_entry, plain) =
        omega (
          arith,
          depth-bytes_of_entries es plain,
          length-append (bytes_of_entries fl es) (b'Z' ∷ []),
        )
    depth-bytes_of (typed_map es) h = absurd h
    depth-bytes_of (ref i) h = absurd h
    depth-bytes_of (enum n) h = absurd h
    depth-bytes_of (pojo o fs) h = absurd h
    depth-bytes_of (struct_value t fs) h = absurd h

    depth-bytes_of_items :
        (xs : Items) → ArePlain fl xs → depth_items xs ≤ length (bytes_of_items fl xs)
    depth-bytes_of_items no_items h = omega arith
    depth-bytes_of_items (item v xs) (h, hs) = omega (
      arith,
      depth-bytes_of v h,
      depth-bytes_of_items xs hs,
      length-append (bytes_of fl v) (bytes_of_items fl xs),
    )

    depth-bytes_of_entries :
        (es : Entries) → AreEntries fl es → depth_entries es ≤ length (bytes_of_entries fl es)
    depth-bytes_of_entries no_entries h = omega arith
    depth-bytes_of_entries (entry k v es) (hashable, hk, hv, hs) = omega (
      arith,
      depth-bytes_of k hk,
      depth-bytes_of v hv,
      depth-bytes_of_entries es hs,
      length-append (bytes_of fl k) (bytes_of fl v ++ bytes_of_entries fl es),
      length-append (bytes_of fl v) (bytes_of_entries fl es),
    )

module _ (lib : ReaderLib) (fl : FloatLib) (objects : ObjectReader) where
  next_value :
      (v : Value) (rest : List ℕ) (n : ℕ)
      → HoldsAll lib
      → IsPlain fl v
      → decode lib fl objects
          (suc (length (bytes_of fl v ++ rest)))
          (decoder (bytes_of fl v ++ rest) n [])
        ≡ (ok v, decoder rest (refs_after v n) [])
  next_value v rest n whole h =
      value_back lib fl objects [] whole v h (suc (length (bytes_of fl v ++ rest))) n rest
        (omega (arith, depth-bytes_of lib fl objects v h, length-append (bytes_of fl v) rest))

  -- A body opens with its type.
  typed_lem :
      (t : Target) (kind : ℕ) (later : List ℕ)
      → HoldsAll lib
      → kind < neg32 0x40000
      → unpack_response_body lib fl objects t (enc_int32 kind [] ++ later)
        ≡ body_of_kind lib fl objects t kind (decoder later 0 [])
  unfolding unpack_response_body typed_body body_of_type IsPlain bytes_of refs_after
  typed_lem t kind later whole small =
      ap (typed_body lib fl objects t) (next_value (int32 kind) later 0 whole small)

  -- What a body comes to that has a plain value behind its type, whatever follows, where one read
  -- gives whatever is left of the body. Behind the type of an answer, a scalar (a Boolean, int32,
  -- int64, double or text) is put into the target that a pointer leads to, and panics where the
  -- target has another type. Behind that of an exception it is the exception. The type of a null
  -- answer is that without a look at the value, and so is a type above it, which is neither negative
  -- with a compact form nor one of the others, taken for nothing.
  pub unpack_response_body-answer :
      (t : Target) (kind : ℕ) (v : Value) (rest : List ℕ)
      → HoldsAll lib
      → 2 < kind
      → kind < neg32 0x40000
      → IsPlain fl v
      → is_scalar v ≡ true
      → t.is_nil ≡ false
      → t.is_pointer ≡ true
      → let body = bytes_of fl v ++ rest in
        (unpack_response_body lib fl objects t (enc_int32 1 [] ++ body)
          ≡ (if t.takes v then ok (answered (some v)) else panic))
        × (unpack_response_body lib fl objects t (enc_int32 0 [] ++ body) ≡ ok (exception v))
        × (unpack_response_body lib fl objects t (enc_int32 2 [] ++ body) ≡ ok null_answer)
        × (unpack_response_body lib fl objects t (enc_int32 kind [] ++ body) ≡ ok other_type)
  unfolding body_of_kind
  unpack_response_body-answer t kind v rest whole above small plain scalar there pointer =
      let body = bytes_of fl v ++ rest in
      let reads = next_value v rest 0 whole plain in
      let put = reflect-scalar t v scalar there pointer in
      (
        typed_lem t 1 body whole (omega arith) ∙ rw (reads, put) (ground arith),
        typed_lem t 0 body whole (omega arith) ∙ rw reads refl,
        typed_lem t 2 body whole (omega arith),
        typed_lem t kind body whole small ∙ ground arith,
      )
