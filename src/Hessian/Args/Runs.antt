-- ===== src/Hessian/Args/Runs.antt =====
-- Runs of the descriptors of arguments.
use dubbogo.Base.{◌≡◌, refl, false, List, [], ◌∷◌, arith, codes}
use dubbogo.Hessian.Args.{
  get_arg_type, has_dot, dots_to_slashes, descriptor, add_types, get_args_type_list, Arg, bytes_arg,
  slice_arg,
}
use dubbogo.Hessian.Args.Split.{IsSupported}

abbrev two_args : List Arg
two_args = slice_arg ∷ bytes_arg ∷ []

two_types : get_args_type_list two_args ≡ (codes "Ljava/util/List;[B", false)
unfolding get_args_type_list add_types descriptor get_arg_type has_dot dots_to_slashes
two_types = refl

slice_arg-IsSupported : IsSupported slice_arg
slice_arg-IsSupported e = ground arith

bytes_arg-IsSupported : IsSupported bytes_arg
bytes_arg-IsSupported e = ground arith
