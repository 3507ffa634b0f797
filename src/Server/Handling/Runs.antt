-- ===== src/Server/Handling/Runs.antt =====
-- Concrete runs of `Handle`, and its theorems at concrete inputs.
use dubbogo.Base.{
  ℕ, ◌≡◌, refl, Bool, true, false, some, [], ◌∷◌, within, codes, string_key, nat_key, text_beq,
  text_key, lookup, insert,
}
use dubbogo.Server.Methods.{
  is_exported, is_exported_or_builtin_type, prepare_method, trim_comma, install, register,
  ReflectType, Handler, RpcServer, pointer, named,
}
use dubbogo.Server.Handling.{
  Servers, Announce, handle_servers, handle_confs, handle, ServiceConf, not_configured,
}
use dubbogo.Server.Handling.Handled.{IsHandled, handle_servers-IsHandled}

abbrev is_ascii_upper : ℕ → Bool
is_ascii_upper = within b'A' b'Z'

abbrev int_type : ReflectType
int_type = named false (codes "int") []

abbrev user_handler : Handler
user_handler = record {
  type_name = codes "User";
  service = codes "user";
  methods =
      record {
        name = codes "Get";
        pkg_path = [];
        ins = int_type ∷ int_type ∷ int_type ∷ pointer false int_type ∷ [];
        outs = named false (codes "error") [] ∷ [];
      }
      ∷ [];
}

abbrev user_conf : ServiceConf
user_conf = record {
  protocol = codes "jsonrpc";
  service = codes "user";
  group = [];
  version = codes "1";
}

abbrev empty_server : RpcServer
empty_server = record { service_map = [] }

-- A server of the protocol and another one.
abbrev two_servers : Servers
two_servers =
    (record { protocol = codes "jsonrpc"; address = codes "a" }, empty_server)
    ∷ (record { protocol = codes "dubbo"; address = codes "b" }, empty_server)
    ∷ []

abbrev announced : Announce
announced sc methods address = true

-- A handler of another version is not configured.
other_version :
    (handle is_ascii_upper announced user_handler (codes "2") (user_conf ∷ []) [] two_servers).2
    ≡ some not_configured
unfolding handle handle_confs text_beq
other_version = refl

handle_servers-IsHandled_example :
    IsHandled is_ascii_upper announced user_handler user_conf two_servers
      (handle_servers is_ascii_upper announced user_handler user_conf two_servers).0
unfolding handle_servers register is_exported lookup install prepare_method
    is_exported_or_builtin_type text_beq insert trim_comma
handle_servers-IsHandled_example =
    handle_servers-IsHandled is_ascii_upper announced user_handler user_conf two_servers true refl
      refl
