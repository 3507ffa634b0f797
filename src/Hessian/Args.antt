-- ===== src/Hessian/Args.antt =====
-- The type descriptors of a request's arguments: getArgType and getArgsTypeList of request.go.
pub mod Split
mod Runs
use dubbogo.Base.{
  ℕ, Bool, true, false, not, ◌||◌, List, [], ◌∷◌, ◌++◌, ◌==◌, if◌then◌else◌, length, codes,
}

-- What the type switch and `reflect` tell apart in an argument. A type that is declared over a basic
-- one, and the kinds that the code does not name, are `unsupported`.
pub data Arg : Type 0 where
  nil_arg bool_arg byte_arg int8_arg int16_arg uint16_arg int_arg int32_arg int64_arg : Arg
  time_arg float32_arg float64_arg string_arg bytes_arg any_map_arg : Arg
  pointer_arg struct_arg slice_arg array_arg map_arg unsupported : Arg

-- A pointer is taken for the struct `reflect.Value`, whatever it points to.
unfoldable pub get_arg_type : Arg → List ℕ
get_arg_type nil_arg = codes "V"
get_arg_type bool_arg = codes "Z"
get_arg_type byte_arg = codes "B"
get_arg_type int8_arg = codes "B"
get_arg_type int16_arg = codes "S"
get_arg_type uint16_arg = codes "C"
get_arg_type int_arg = codes "I"
get_arg_type int32_arg = codes "I"
get_arg_type int64_arg = codes "J"
get_arg_type time_arg = codes "java.util.Date"
get_arg_type float32_arg = codes "F"
get_arg_type float64_arg = codes "D"
get_arg_type string_arg = codes "java.lang.String"
get_arg_type bytes_arg = codes "[B"
get_arg_type any_map_arg = codes "java.util.Map"
get_arg_type pointer_arg = codes "java.lang.Object"
get_arg_type struct_arg = codes "java.lang.Object"
get_arg_type slice_arg = codes "java.util.List"
get_arg_type array_arg = codes "java.util.List"
get_arg_type map_arg = codes "java.util.Map"
get_arg_type unsupported = codes ""

-- `strings.Contains(typ, ".")`
unfoldable pub has_dot : List ℕ → Bool
has_dot [] = false
has_dot (c ∷ cs) = c == b'.' || has_dot cs

-- `strings.Replace(typ, ".", "/", -1)`
unfoldable pub dots_to_slashes : List ℕ → List ℕ
dots_to_slashes [] = []
dots_to_slashes (c ∷ cs) = (if c == b'.' then b'/' else c) ∷ dots_to_slashes cs

-- What the loop adds for a type: java.util.List becomes Ljava/util/List;
unfoldable pub descriptor : List ℕ → List ℕ
descriptor typ = if not (has_dot typ) then typ else b'L' ∷ dots_to_slashes typ ++ (b';' ∷ [])

-- The loop; the second field tells of an error, with the types so far beside it.
unfoldable pub add_types : List Arg → List ℕ → List ℕ × Bool
add_types [] types = (types, false)
add_types (a ∷ args) types =
    let rest = add_types args (types ++ descriptor (get_arg_type a)) in
    if length (get_arg_type a) == 0 then (types, true) else rest

unfoldable pub get_args_type_list : List Arg → List ℕ × Bool
get_args_type_list args = add_types args []
