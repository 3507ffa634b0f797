-- ===== src/Hessian/Args/Split.antt =====
-- The list of descriptors splits again into those of the arguments.
use mathlib.Core.List.{append_assoc, append-nil}
use dubbogo.Base.{
  ℕ, zero, suc, ◌≡◌, refl, sym, ap, ◌∙◌, ◌≢◌, ◌↔◌, inl, inr, true, false, List, [], ◌∷◌, ◌++◌, map,
  arith, ◌==◌, if◌then◌else◌, Bool-cases, length, All,
}
use dubbogo.Hessian.Args.{
  get_arg_type, has_dot, dots_to_slashes, descriptor, add_types, get_args_type_list, Arg, nil_arg,
  bool_arg, byte_arg, int8_arg, int16_arg, uint16_arg, int_arg, int32_arg, int64_arg, time_arg,
  float32_arg, float64_arg, string_arg, bytes_arg, any_map_arg, pointer_arg, struct_arg, slice_arg,
  array_arg, map_arg, unsupported,
}

-- A way through a list of descriptors: up to a semicolon behind 'L', one more
-- descriptor behind '[', and one letter otherwise.
to_semicolon : List ℕ → List ℕ × List ℕ
to_semicolon [] = ([], [])
to_semicolon (c ∷ cs) =
    let (name, rest) = to_semicolon cs in if c == b';' then (c ∷ [], cs) else (c ∷ name, rest)

unfoldable pub first_descriptor : List ℕ → List ℕ × List ℕ
unfolding to_semicolon
first_descriptor [] = ([], [])
first_descriptor (c ∷ cs) =
    let (name, after) = to_semicolon cs in
    let (inner, behind) = first_descriptor cs in
    if c == b'L' then (c ∷ name, after) else if c == b'[' then (c ∷ inner, behind) else (c ∷ [], cs)

-- The first `n` descriptors of a list.
unfoldable pub split : ℕ → List ℕ → List (List ℕ)
split zero s = []
split (suc n) s = (first_descriptor s).0 ∷ split n (first_descriptor s).1

abbrev pub IsSupported : Arg → Type 0
IsSupported a = a ≢ unsupported

first_is :
    (a : Arg) (rest : List ℕ)
    → IsSupported a
    → first_descriptor (descriptor (get_arg_type a) ++ rest) ≡ (descriptor (get_arg_type a), rest)
unfolding first_descriptor to_semicolon descriptor get_arg_type has_dot dots_to_slashes
first_is nil_arg rest h = refl
first_is bool_arg rest h = refl
first_is byte_arg rest h = refl
first_is int8_arg rest h = refl
first_is int16_arg rest h = refl
first_is uint16_arg rest h = refl
first_is int_arg rest h = refl
first_is int32_arg rest h = refl
first_is int64_arg rest h = refl
first_is time_arg rest h = refl
first_is float32_arg rest h = refl
first_is float64_arg rest h = refl
first_is string_arg rest h = refl
first_is bytes_arg rest h = refl
first_is any_map_arg rest h = refl
first_is pointer_arg rest h = refl
first_is struct_arg rest h = refl
first_is slice_arg rest h = refl
first_is array_arg rest h = refl
first_is map_arg rest h = refl
first_is unsupported rest h = absurd (h refl)

has_type : (a : Arg) → IsSupported a → length (get_arg_type a) == 0 ≡ false
unfolding get_arg_type
has_type nil_arg h = refl
has_type bool_arg h = refl
has_type byte_arg h = refl
has_type int8_arg h = refl
has_type int16_arg h = refl
has_type uint16_arg h = refl
has_type int_arg h = refl
has_type int32_arg h = refl
has_type int64_arg h = refl
has_type time_arg h = refl
has_type float32_arg h = refl
has_type float64_arg h = refl
has_type string_arg h = refl
has_type bytes_arg h = refl
has_type any_map_arg h = refl
has_type pointer_arg h = refl
has_type struct_arg h = refl
has_type slice_arg h = refl
has_type array_arg h = refl
has_type map_arg h = refl
has_type unsupported h = absurd (h refl)

abbrev pub descriptors : List Arg → List (List ℕ)
descriptors = map (λ a. descriptor (get_arg_type a))

joined : List (List ℕ) → List ℕ
joined [] = []
joined (d ∷ ds) = d ++ joined ds

add_types-joined :
    (args : List Arg) (types : List ℕ)
    → All IsSupported args
    → add_types args types ≡ (types ++ joined (descriptors args), false)
unfolding add_types joined
add_types-joined [] types h = ap (λ t. (t, false)) (sym (append-nil types))
add_types-joined (a ∷ args) types (here, later) =
    let d = descriptor (get_arg_type a) in
    rw (has_type a here) (
      add_types-joined args (types ++ d) later
      ∙ ap (λ t. (t, false)) (append_assoc types d (joined (descriptors args))))

split-joined :
    (args : List Arg)
    → All IsSupported args
    → split (length args) (joined (descriptors args)) ≡ descriptors args
unfolding split joined
split-joined [] h = refl
split-joined (a ∷ args) (here, later) =
    rw (first_is a (joined (descriptors args)) here)
      (ap (◌∷◌ (descriptor (get_arg_type a))) (split-joined args later))

-- The types of supported arguments split again into their descriptors, one for each argument.
pub split-get_args_type_list :
    (args : List Arg)
    → All IsSupported args
    → split (length args) (get_args_type_list args).0 ≡ descriptors args
unfolding get_args_type_list
split-get_args_type_list args h =
    ap (λ r. split (length args) r.0) (add_types-joined args [] h) ∙ split-joined args h

no_type : (a : Arg) → a ≡ unsupported → length (get_arg_type a) == 0 ≡ true
unfolding get_arg_type
no_type a e = rw e refl

add_types-IsSupported :
    (args : List Arg) (types : List ℕ) → (add_types args types).1 ≡ false → All IsSupported args
unfolding add_types
add_types-IsSupported [] types h = tt
add_types-IsSupported (a ∷ args) types h =
    let next = add_types args (types ++ descriptor (get_arg_type a)) in
    elim (Bool-cases (length (get_arg_type a) == 0)) [
      | inl y ↦
          let refused : (add_types (a ∷ args) types).1 ≡ true = rw y refl in
          absurd (ground (arith, sym refused ∙ h))
      | inr n ↦
          let goes_on : (add_types (a ∷ args) types).1 ≡ next.1 = rw n refl in
          (
            λ e. ground (arith, sym (no_type a e) ∙ n),
            add_types-IsSupported args (types ++ descriptor (get_arg_type a)) (sym goes_on ∙ h),
          )
    ]

-- The list of types comes without an error exactly where every argument is supported.
pub get_args_type_list_iff :
    (args : List Arg) → ((get_args_type_list args).1 ≡ false) ↔ All IsSupported args
unfolding get_args_type_list
get_args_type_list_iff args =
    (add_types-IsSupported args [], λ h. ap (λ r. r.1) (add_types-joined args [] h))
