-- ===== src/Hessian/Encoder/Runs.antt =====
-- Concrete runs of the encoder.
use dubbogo.Base.{◌≡◌, refl, [], ◌∷◌, ◌==◌, not_supported, err}
use dubbogo.Hessian.Text.{Text}
use dubbogo.Hessian.Ints.{enc_int32}
use dubbogo.Hessian.Values.{Value, FloatLib, int32, list, enum, no_items, item}
use dubbogo.Hessian.Classes.{empty_registry}
use dubbogo.Hessian.Encoder.{count, with_buffer, enc_value, Encoder}
use dubbogo.Hessian.Encoder.Appends.{Extends, enc_value-Extends}

abbrev whole_lib : FloatLib
whole_lib = record { from_int = λ n. n; to_int = λ n. n; same = λ a b. a == b; format = λ n. [] }

abbrev no_change : Text → Text
no_change t = t

abbrev begun : Encoder
begun = record { buffer = 1 ∷ []; class_info_list = []; pojo_registry = empty_registry }

-- A number, and an enum, which cannot be encoded.
abbrev half : Value
half = list (item (int32 7) (item (enum 3) no_items))

half_bytes :
    enc_value whole_lib no_change half begun
    ≡ (err not_supported, with_buffer begun (1 ∷ 0x58 ∷ 0x92 ∷ 0x97 ∷ []))
unfolding enc_value enc_int32 count
half_bytes = refl

enc_value-Extends_example : Extends begun (enc_value whole_lib no_change half begun).1
enc_value-Extends_example = enc_value-Extends whole_lib no_change half begun
