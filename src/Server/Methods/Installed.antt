-- ===== src/Server/Methods/Installed.antt =====
-- What a registration makes of the server.
use dubbogo.Base.{
  ℕ, ◌≡◌, refl, sym, ap, ◌∙◌, ◌≢◌, ◌⊎◌, inl, inr, Bool, true, false, Option, none, some, List, [],
  ◌∷◌, arith, ◌==◌, if◌then◌else◌, Bool-cases, length, Option-cases, or_else, or_else_assoc,
  or_else-none, string_key, nat_key, text_key, Dict, same_self, lookup, insert, lookup-insert,
}
use dubbogo.Hessian.Text.{Text}
use dubbogo.Server.Methods.{
  is_text_empty, is_exported, prepare_method, install_one, install, add_service, register, Method,
  MethodType, Handler, Service, RpcServer, RegisterError, already_defined,
}
use dubbogo.Server.Serving.{found, find_request}

module _ (is_upper : ℕ → Bool) where
  -- The method of a name that can be called; of more than one, the last.
  unfoldable pub suitable : Text → List Method → Option MethodType
  suitable m [] = none
  suitable m (x ∷ xs) =
      or_else (suitable m xs) (if text_key.same x.name m then prepare_method is_upper x else none)

  installed :
      (m : Text) (x : Method) (table : Dict Text MethodType) (names : Text)
      → lookup m (install_one is_upper x.name (prepare_method is_upper x) (table, names)).0
        ≡ or_else
            (if text_key.same x.name m then prepare_method is_upper x else none)
            (lookup m table)
  installed m x table names = elim (Option-cases (prepare_method is_upper x)) [
    | inl e ↦ rw e (ground arith)
    | inr (mt, e) ↦ rw (e, lookup-insert x.name m mt table) (ground arith)
  ]

  lookup-install :
      (m : Text) (ms : List Method) (state : Dict Text MethodType × Text)
      → lookup m (install is_upper ms state).0 ≡ or_else (suitable m ms) (lookup m state.0)
  unfolding install suitable
  lookup-install m [] state = refl
  lookup-install m (x ∷ xs) (table, names) =
      lookup-install m xs (install_one is_upper x.name (prepare_method is_upper x) (table, names))
      ∙ rw (installed m x table names) (
          sym (
            or_else_assoc (suitable m xs)
              (if text_key.same x.name m then prepare_method is_upper x else none)
              (lookup m table)))

  lookup_all :
      (m : Text) (ms : List Method) → lookup m (install is_upper ms ([], [])).0 ≡ suitable m ms
  unfolding lookup
  lookup_all m ms = lookup-install m ms ([], []) ∙ or_else-none (suitable m ms)

  -- What a registration that succeeds adds.
  added :
      (server : RpcServer) (h : Handler) (names : Text)
      → (register is_upper server h).1 ≡ inl names
      → (register is_upper server h).0 ≡ record server {
        service_map =
            insert h.service
              (record { name = h.service; method = (install is_upper h.methods ([], [])).0 })
              server.service_map;
      }
  unfolding register
  added server h names done = elim (Bool-cases (is_exported is_upper h.type_name)) [
    | inr hidden ↦ absurd (ground arith)
    | inl shown ↦ elim (Option-cases (lookup h.service server.service_map)) [
      | inr (service, e) ↦ absurd (ground arith)
      | inl e ↦ elim (Bool-cases (length (install is_upper h.methods ([], [])).0 == 0)) [
        | inl nothing ↦ absurd (ground arith)
        | inr some_method ↦ rw (shown, e, some_method) refl
      ]
    ]
  ]

  refused :
      (server : RpcServer) (h : Handler) (service : Service)
      → is_exported is_upper h.type_name ≡ true
      → lookup h.service server.service_map ≡ some service
      → register is_upper server h ≡ (server, inr already_defined)
  unfolding register
  refused server h service shown present = rw (shown, present) refl

  pub register-finds :
      (server : RpcServer) (h : Handler) (names m : Text)
      → (register is_upper server h).1 ≡ inl names
      → is_text_empty h.service ≡ false
      → is_text_empty m ≡ false
      → find_request (register is_upper server h).0 h.service m
        ≡ found h.service m (suitable m h.methods)
  unfolding find_request
  register-finds server h names m done is_named asked =
      rw
        (
          added server h names done,
          is_named,
          asked,
          lookup-insert h.service h.service _ server.service_map,
          same_self h.service,
        )
        (ap (found h.service m) (lookup_all m h.methods))

  add_failed :
      (server : RpcServer) (sname : Text) (state : Dict Text MethodType × Text) (e : RegisterError)
      → (add_service is_upper server sname state).1 ≡ inr e
      → (add_service is_upper server sname state).0 ≡ server
  add_failed server sname (table, names) e failed = elim (Bool-cases (length table == 0)) [
    | inl nothing ↦ rw nothing refl
    | inr some_method ↦ absurd (ground arith)
  ]

  register_failed :
      (server : RpcServer) (h : Handler) (e : RegisterError)
      → (register is_upper server h).1 ≡ inr e
      → (register is_upper server h).0 ≡ server
  unfolding register
  register_failed server h e failed = elim (Bool-cases (is_exported is_upper h.type_name)) [
    | inr hidden ↦ rw hidden refl
    | inl shown ↦ elim (Option-cases (lookup h.service server.service_map)) [
      | inr (service, present) ↦ rw (shown, present) refl
      | inl absent ↦
          rw (shown, absent)
            (add_failed server h.service (install is_upper h.methods ([], [])) e
              (rw (shown, absent) at failed))
    ]
  ]

  same-false : (s t : Text) → s ≢ t → text_key.same s t ≡ false
  same-false s t other = elim (Bool-cases (text_key.same s t)) [
    | inl same ↦ absurd (other ((text_key.same_iff s t).0 same))
    | inr e ↦ e
  ]

  find_others :
      (server : RpcServer) (h : Handler) (s m : Text) (result : Text ⊎ RegisterError)
      → (register is_upper server h).1 ≡ result
      → h.service ≢ s
      → find_request (register is_upper server h).0 s m ≡ find_request server s m
  unfolding find_request
  find_others server h s m (inr e) done other = rw (register_failed server h e done) refl
  find_others server h s m (inl names) done other =
      rw
        (
          added server h names done,
          lookup-insert h.service s _ server.service_map,
          same-false h.service s other,
        )
        refl

  -- A registration that fails leaves the server as it is, and none changes what is found of another
  -- service.
  pub register-keeps :
      (server : RpcServer) (h : Handler) (s m : Text)
      → ((e : RegisterError)
          → (register is_upper server h).1 ≡ inr e
          → (register is_upper server h).0 ≡ server)
        × (h.service ≢ s
            → find_request (register is_upper server h).0 s m ≡ find_request server s m)
  register-keeps server h s m =
      (register_failed server h, find_others server h s m (register is_upper server h).1 refl)

  -- A service is registered once.
  pub register_twice :
      (server : RpcServer) (h again : Handler) (names : Text)
      → (register is_upper server h).1 ≡ inl names
      → again.service ≡ h.service
      → is_exported is_upper again.type_name ≡ true
      → register is_upper (register is_upper server h).0 again
        ≡ ((register is_upper server h).0, inr already_defined)
  register_twice server h again names done same shown =
      let present : lookup again.service (register is_upper server h).0.service_map
          ≡ some (record { name = h.service; method = (install is_upper h.methods ([], [])).0 }) =
        rw
          (
            added server h names done,
            same,
            lookup-insert h.service h.service _ server.service_map,
            same_self h.service,
          )
          refl in
      refused (register is_upper server h).0 again _ shown present
