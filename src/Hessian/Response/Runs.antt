-- ===== src/Hessian/Response/Runs.antt =====
-- Concrete responses.
use dubbogo.Base.{
  length, ◌≡◌, refl, inl, Bool, true, false, none, some, [], ◌∷◌, ◌++◌, arith, ◌==◌, ReaderLib,
  wrong_tag, ok, err,
}
use dubbogo.Hessian.Ints.{enc_int32}
use dubbogo.Hessian.Values.{Value, FloatLib, text, list, no_items, item}
use dubbogo.Hessian.Encoder.Plain.{IsPlain, bytes_of}
use dubbogo.Hessian.Decoder.{ObjectReader}
use dubbogo.Hessian.Response.{
  value_of_value, assignable, copy_elem, copy_items, cp_slice, reflect_kind, reflect_response,
  unpack_response_body, Target, answered,
}
use dubbogo.Hessian.Response.Answers.{unpack_response_body-answer}

abbrev nil_lib : ReaderLib
nil_lib = record { trace_nil = none; annotatef_nil = none; available = λ s. length s }

abbrev whole_lib : FloatLib
whole_lib = record { from_int = λ n. n; to_int = λ n. n; same = λ a b. a == b; format = λ n. [] }

abbrev no_objects : ObjectReader
no_objects = record {
  dec_object = λ decode tag d. (err wrong_tag, d);
  dec_typed_map = λ decode d. (err wrong_tag, d);
}

-- A pointer to a string.
abbrev is_text : Value → Bool
is_text (text s) = true
is_text _ = false

abbrev string_target : Target
string_target = record {
  is_nil = false;
  is_pointer = true;
  takes = is_text;
  in_is_nil = λ bs. false;
  is_slice = false;
  is_map = false;
  elem_is_struct = false;
  takes_elem = is_text;
  key_is_struct = false;
  takes_key = is_text;
  value_is_struct = false;
  takes_value = is_text;
}

-- A pointer to a slice of strings, which takes no `reflect.Value`: a list of texts is refused.
abbrev strings_target : Target
strings_target = record string_target { is_slice = true; takes = λ v. false }

strings_refused :
    reflect_response strings_target (list (item (text (b'x' ∷ [])) no_items)) ≡ err wrong_tag
unfolding reflect_response reflect_kind cp_slice copy_items copy_elem value_of_value assignable
strings_refused = refl

unpack_response_body-answer_example :
    unpack_response_body nil_lib whole_lib no_objects string_target
      (enc_int32 1 [] ++ (bytes_of whole_lib (text (b'x' ∷ [])) ++ []))
    ≡ ok (answered (some (text (b'x' ∷ []))))
unfolding IsPlain
unpack_response_body-answer_example =
    (unpack_response_body-answer nil_lib whole_lib no_objects string_target 3 (text (b'x' ∷ [])) []
      (λ s. refl) (omega arith) (omega arith) (inl (omega arith), tt) refl refl refl).0
