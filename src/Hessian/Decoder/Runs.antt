-- ===== src/Hessian/Decoder/Runs.antt =====
-- Concrete runs of `Encode` and `Decode`, and the decoder's theorems at concrete inputs.
use dubbogo.Base.{
  length, ℕ, ◌≡◌, refl, inl, none, List, [], ◌∷◌, ◌++◌, arith, ◌==◌, ReaderLib, wrong_tag, ok, err,
}
use dubbogo.Hessian.Classes.{empty_registry}
use dubbogo.Hessian.Values.{
  Value, FloatLib, null, int32, text, list, go_map, no_items, item, no_entries, entry,
}
use dubbogo.Hessian.Ints.{enc_int32}
use dubbogo.Hessian.Text.{Text, utf8, utf8_all, text_head, enc_text, enc_string}
use dubbogo.Hessian.Encoder.Plain.{IsPlain}
use dubbogo.Hessian.Encoder.{count, is_empty, with_buffer, enc_value, Encoder}
use dubbogo.Hessian.Decoder.{decode, ObjectReader}
use dubbogo.Hessian.Decoder.Leaves.{depth, refs_after, decoder}
use dubbogo.Hessian.Decoder.RoundTrip.{decode-enc_value}

abbrev nil_lib : ReaderLib
nil_lib = record { trace_nil = none; annotatef_nil = none; available = λ s. length s }

-- Doubles that are whole, as their own bits, and no others.
abbrev whole_lib : FloatLib
whole_lib = record { from_int = λ n. n; to_int = λ n. n; same = λ a b. a == b; format = λ n. [] }

-- A reader of objects that knows no class.
abbrev no_objects : ObjectReader
no_objects = record {
  dec_object = λ decode tag d. (err wrong_tag, d);
  dec_typed_map = λ decode d. (err wrong_tag, d);
}

abbrev no_change : Text → Text
no_change t = t

-- An encoder that wrote a byte before.
abbrev begun : Encoder
begun = record { buffer = 1 ∷ []; class_info_list = []; pojo_registry = empty_registry }

-- A map from a text to a list of a number and nothing.
abbrev small_map : Value
small_map =
    go_map (entry (text (104 ∷ 105 ∷ [])) (list (item (int32 7) (item null no_items))) no_entries)

small_bytes :
    enc_value whole_lib no_change small_map begun
    ≡ (ok tt, with_buffer begun (1 ∷ b'H' ∷ 2 ∷ 104 ∷ 105 ∷ 0x58 ∷ 0x92 ∷ 0x97 ∷ b'N' ∷ b'Z' ∷ []))
unfolding enc_value is_empty enc_int32 count enc_string enc_text text_head utf8_all utf8
small_bytes = refl

small_map-IsPlain : IsPlain whole_lib small_map
unfolding IsPlain count is_empty
small_map-IsPlain = (
  refl,
  (refl, (inl (omega arith), (inl (omega arith), tt)), (omega arith, (omega arith, (tt, tt))), tt),
)

decode-enc_value_example :
    (added : List ℕ) × (enc_value whole_lib no_change small_map begun
      ≡ (ok tt, with_buffer begun (1 ∷ added)))
    × (decode nil_lib whole_lib no_objects 3 (decoder (added ++ (5 ∷ [])) 0 [])
        ≡ (ok small_map, decoder (5 ∷ []) 2 []))
unfolding depth refs_after
decode-enc_value_example =
    decode-enc_value nil_lib whole_lib no_objects no_change small_map begun (5 ∷ []) 3 0 []
      (λ s. refl) small_map-IsPlain (omega arith)
