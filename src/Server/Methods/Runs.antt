-- ===== src/Server/Methods/Runs.antt =====
-- Concrete runs of the registration, and its theorems at concrete inputs.
use dubbogo.Base.{ℕ, Bool, false, [], ◌∷◌, within, codes, string_key, nat_key, text_key}
use dubbogo.Server.Methods.{ReflectType, Method, Handler, RpcServer, pointer, named}

abbrev is_ascii_upper : ℕ → Bool
is_ascii_upper = within b'A' b'Z'

abbrev error_type : ReflectType
error_type = named false (codes "error") []

abbrev int_type : ReflectType
int_type = named false (codes "int") []

-- A method with a reply, and one whose reply is no pointer.
abbrev get_user : Method
get_user = record {
  name = codes "Get";
  pkg_path = [];
  ins = int_type ∷ int_type ∷ int_type ∷ pointer false int_type ∷ [];
  outs = error_type ∷ [];
}

abbrev bad_reply : Method
bad_reply = record get_user {
  name = codes "Put";
  ins = int_type ∷ int_type ∷ int_type ∷ int_type ∷ [];
}

abbrev user_handler : Handler
user_handler = record {
  type_name = codes "User";
  service = codes "user";
  methods = get_user ∷ bad_reply ∷ [];
}

abbrev empty_server : RpcServer
empty_server = record { service_map = [] }
