-- ===== src/Server/Handling.antt =====
-- `Handle` of server/server.go: a handler on the servers of its protocols, and in the registry.
pub mod Handled
mod Runs
use dubbogo.Base.{
  ℕ, ◌⊎◌, inl, inr, Bool, true, false, not, ◌&&◌, Option, none, some, List, [], ◌∷◌, if◌then◌else◌,
  string_key, nat_key, text_key, Dict, insert,
}
use dubbogo.Hessian.Text.{Text}
use dubbogo.Server.Methods.{register, Handler, RpcServer, RegisterError}

-- An entry of `ServiceConfList`.
pub record ServiceConf : Type 0 where
  pub protocol : Text
  pub service : Text
  pub group : Text
  pub version : Text

-- An entry of `ConfList`.
pub record ServerConf : Type 0 where
  pub protocol : Text
  pub address : Text

pub data HandleError : Type 0 where
  register_error : RegisterError → HandleError
  registry_error : HandleError
  not_configured : HandleError

-- The servers with their configurations, and whether one of them took the handler, or an error.
abbrev pub Servers : Type 0
Servers = List (ServerConf × RpcServer)

abbrev pub Handling : Type 0
Handling = Servers × (Bool ⊎ HandleError)

abbrev pub taken : Bool ⊎ HandleError → Bool ⊎ HandleError
taken (inl b) = inl true
taken (inr e) = inr e

abbrev pub behind : ServerConf × RpcServer → Handling → Handling
behind server (others, result) = (server ∷ others, result)

-- `Registry.Register` answers, by the configuration, the names of the methods and the address,
-- whether it succeeds.
abbrev pub Announce : Type 0
Announce = ServiceConf → Text → Text → Bool

module _ (is_upper : ℕ → Bool) (announce : Announce) (h : Handler) (sc : ServiceConf) where
  abbrev pub with_registered :
      ServerConf → Servers → Handling → RpcServer × (Text ⊎ RegisterError) → Handling
  with_registered conf rest others (rpc, inr e) = ((conf, rpc) ∷ rest, inr (register_error e))
  with_registered conf rest (others, result) (rpc, inl methods) =
      if not (announce sc methods conf.address)
      then ((conf, rpc) ∷ rest, inr registry_error)
      else ((conf, rpc) ∷ others, taken result)

  -- The inner loop: the servers of the configuration's protocol.
  unfoldable pub handle_servers : Servers → Handling
  handle_servers [] = ([], inl false)
  handle_servers ((conf, rpc) ∷ rest) =
      let others = handle_servers rest in
      if text_key.same conf.protocol sc.protocol
      then with_registered conf rest others (register is_upper rpc h)
      else behind (conf, rpc) others

module _ (is_upper : ℕ → Bool) (announce : Announce) (h : Handler) (version : Text) where
  abbrev pub and_taken : Bool → Handling → Handling
  and_taken true (servers, result) = (servers, taken result)
  and_taken false handling = handling

  abbrev pub is_for : ServiceConf → Bool
  is_for sc = text_key.same sc.service h.service && text_key.same sc.version version

  -- The outer loop, over the service configurations.
  unfoldable pub handle_confs : List ServiceConf → Servers → Handling
  handle_confs [] servers = (servers, inl false)
  handle_confs (sc ∷ scs) servers =
      if is_for sc
      then elim (handle_servers is_upper announce h sc servers).1 [
        | inr e ↦ ((handle_servers is_upper announce h sc servers).0, inr e)
        | inl b ↦ and_taken b (handle_confs scs (handle_servers is_upper announce h sc servers).0)
      ]
      else handle_confs scs servers

  abbrev pub configured : Bool ⊎ HandleError → Option HandleError
  configured (inl true) = none
  configured (inl false) = some not_configured
  configured (inr e) = some e

  abbrev pub with_handler :
      Dict Text Handler
      → Servers
      → Option HandleError
      → Servers × Dict Text Handler × Option HandleError
  with_handler handlers servers none = (servers, insert h.service h handlers, none)
  with_handler handlers servers (some e) = (servers, handlers, some e)

  -- `Handle`, of a handler with a version: the servers and the handlers behind it, and the error.
  unfoldable pub handle :
      List ServiceConf
      → Dict Text Handler
      → Servers
      → Servers × Dict Text Handler × Option HandleError
  handle confs handlers servers =
      let (servers', result) = handle_confs confs servers in
      with_handler handlers servers' (configured result)
