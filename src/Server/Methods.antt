-- ===== src/Server/Methods.antt =====
-- server/rpc_server.go: the methods of a handler that can be called, and its registration.
pub mod Installed
mod Runs
use dubbogo.Base.{
  ℕ, ◌⊎◌, inl, inr, Bool, true, false, not, ◌&&◌, ◌||◌, Option, none, some, List, [], ◌∷◌, ◌++◌,
  ◌==◌, if◌then◌else◌, length, codes, string_key, nat_key, text_key, Dict, lookup, insert,
}
use dubbogo.Hessian.Text.{Text}

-- What `reflect.Type` tells of a type: whether it implements Streamer, what a pointer points to, and
-- the name and package of another type, which are empty where it has none.
pub data ReflectType : Type 0 where
  pointer : Bool → ReflectType → ReflectType
  named : Bool → Text → Text → ReflectType

-- A method that reflection shows, its receiver the first of its parameters.
pub record Method : Type 0 where
  pub name : Text
  pub pkg_path : Text
  pub ins : List ReflectType
  pub outs : List ReflectType

pub record MethodType : Type 0 where
  pub method : Method
  pub arg_type : ReflectType
  pub reply_type : Option ReflectType
  pub context_type : ReflectType
  pub stream : Bool
  pub num_calls : ℕ

abbrev pub is_streamer : ReflectType → Bool
is_streamer (pointer s t) = s
is_streamer (named s name pkg) = s

abbrev pub is_pointer : ReflectType → Bool
is_pointer (pointer s t) = true
is_pointer (named s name pkg) = false

-- `error` is the one type of that name outside a package.
abbrev pub is_error : ReflectType → Bool
is_error (pointer s t) = false
is_error (named s name pkg) = text_key.same name (codes "error") && text_key.same pkg []

abbrev pub is_text_empty : Text → Bool
is_text_empty [] = true
is_text_empty (c ∷ s) = false

-- One out, an error.
abbrev pub returns_error : List ReflectType → Bool
returns_error (out ∷ []) = is_error out
returns_error outs = false

-- `unicode.IsUpper` is an argument.
module _ (is_upper : ℕ → Bool) where
  -- The first rune of no text is the error rune.
  unfoldable pub is_exported : Text → Bool
  is_exported [] = is_upper 0xfffd
  is_exported (c ∷ name) = is_upper c

  unfoldable pub is_exported_or_builtin_type : ReflectType → Bool
  is_exported_or_builtin_type (pointer s t) = is_exported_or_builtin_type t
  is_exported_or_builtin_type (named s name pkg) = is_exported name || is_text_empty pkg

  abbrev pub prepare_stream : Method → ReflectType → ReflectType → Option MethodType
  prepare_stream m context arg =
      if not (is_streamer arg)
      then none
      else if not (returns_error m.outs)
      then none
      else some record {
        method = m;
        arg_type = arg;
        reply_type = none;
        context_type = context;
        stream = true;
        num_calls = 0;
      }

  abbrev pub prepare_unary : Method → ReflectType → ReflectType → ReflectType → Option MethodType
  prepare_unary m context arg reply =
      if not (is_exported_or_builtin_type arg)
      then none
      else if not (is_pointer reply)
      then none
      else if not (is_exported_or_builtin_type reply)
      then none
      else if not (returns_error m.outs)
      then none
      else some record {
        method = m;
        arg_type = arg;
        reply_type = some reply;
        context_type = context;
        stream = false;
        num_calls = 0;
      }

  -- The method by the number of its parameters.
  abbrev pub prepare_ins : Method → List ReflectType → Option MethodType
  prepare_ins m (receiver ∷ context ∷ arg ∷ []) = prepare_stream m context arg
  prepare_ins m (receiver ∷ context ∷ arg ∷ reply ∷ []) = prepare_unary m context arg reply
  prepare_ins m ins = none

  unfoldable pub prepare_method : Method → Option MethodType
  prepare_method m = if not (is_text_empty m.pkg_path) then none else prepare_ins m m.ins

-- What is registered: its type's name behind pointers, its `Service()`, and its methods.
pub record Handler : Type 0 where
  pub type_name : Text
  pub service : Text
  pub methods : List Method

pub record Service : Type 0 where
  pub name : Text
  pub method : Dict Text MethodType

pub record RpcServer : Type 0 where
  pub service_map : Dict Text Service

pub data RegisterError : Type 0 where
  not_exported already_defined no_methods : RegisterError

-- `TrimSuffix(methods, ",")`
unfoldable pub trim_comma : Text → Text
trim_comma [] = []
trim_comma (c ∷ []) = if c == b',' then [] else c ∷ []
trim_comma (c ∷ d ∷ s) = c ∷ trim_comma (d ∷ s)

module _ (is_upper : ℕ → Bool) where
  abbrev pub install_one :
      Text → Option MethodType → Dict Text MethodType × Text → Dict Text MethodType × Text
  install_one name none (table, methods) = (table, methods)
  install_one name (some mt) (table, methods) =
      (insert name mt table, methods ++ (name ++ (b',' ∷ [])))

  -- The loop that installs the methods: their table, and their names.
  unfoldable pub install : List Method → Dict Text MethodType × Text → Dict Text MethodType × Text
  install [] state = state
  install (m ∷ ms) state = install ms (install_one m.name (prepare_method is_upper m) state)

  abbrev pub add_service :
      RpcServer → Text → Dict Text MethodType × Text → RpcServer × (Text ⊎ RegisterError)
  add_service server sname (table, methods) =
      if length table == 0 then (server, inr no_methods) else (
        record server {
          service_map = insert sname (record { name = sname; method = table }) server.service_map;
        },
        inl (trim_comma methods),
      )

  -- `register`: the names of the methods, or an error.
  unfoldable pub register : RpcServer → Handler → RpcServer × (Text ⊎ RegisterError)
  register server h =
      if not (is_exported is_upper h.type_name)
      then (server, inr not_exported)
      else elim (lookup h.service server.service_map) [
        | some service ↦ (server, inr already_defined)
        | none ↦ add_service server h.service (install h.methods ([], []))
      ]
