-- ===== src/Server/Handling/Handled.antt =====
-- The servers behind the inner loop of `Handle`.
use dubbogo.Base.{
  ℕ, ◌≡◌, refl, ◌⊎◌, inl, inr, Bool, true, false, [], ◌∷◌, arith, Bool-cases, text_key,
}
use dubbogo.Hessian.Text.{Text}
use dubbogo.Server.Methods.{is_text_empty, register, Handler, RpcServer, RegisterError}
use dubbogo.Server.Serving.{found, find_request}
use dubbogo.Server.Methods.Installed.{suitable, register-finds}
use dubbogo.Server.Handling.{
  Servers, Handling, Announce, with_registered, handle_servers, ServiceConf, ServerConf,
}

module _ (is_upper : ℕ → Bool) (announce : Announce) (h : Handler) (sc : ServiceConf) where
  -- A server of the protocol finds the suitable methods, and another one is as it was.
  abbrev HandledOn : ServerConf → RpcServer → RpcServer → Type 0
  HandledOn conf before after =
      (text_key.same conf.protocol sc.protocol ≡ true
        → (m : Text) → is_text_empty m ≡ false
        → find_request after h.service m ≡ found h.service m (suitable is_upper m h.methods))
      × (text_key.same conf.protocol sc.protocol ≡ false → after ≡ before)

  -- The servers before and behind, one by one.
  unfoldable pub IsHandled : Servers → Servers → Type 0
  IsHandled [] [] = Unit {0}
  IsHandled [] (y ∷ ys) = ⊥
  IsHandled (x ∷ xs) [] = ⊥
  IsHandled ((conf, before) ∷ xs) ((conf', after) ∷ ys) =
      (conf' ≡ conf) × HandledOn conf before after × IsHandled xs ys

  registered-HandledOn :
      (conf : ServerConf) (rpc : RpcServer) (names : Text)
      → is_text_empty h.service ≡ false
      → text_key.same conf.protocol sc.protocol ≡ true
      → (register is_upper rpc h).1 ≡ inl names
      → HandledOn conf rpc (register is_upper rpc h).0
  registered-HandledOn conf rpc names full same done = (
    λ e m asked. register-finds is_upper rpc h names m done full asked,
    λ e. absurd (ground arith),
  )

  with_registered-IsHandled :
      (conf : ServerConf) (rpc : RpcServer) (rest : Servers) (others : Handling)
      (r : RpcServer × (Text ⊎ RegisterError)) (b : Bool)
      → ((names : Text) → r.1 ≡ inl names → HandledOn conf rpc r.0)
      → ((b' : Bool) → others.1 ≡ inl b' → IsHandled rest others.0)
      → (with_registered is_upper announce h sc conf rest others r).1 ≡ inl b
      → IsHandled ((conf, rpc) ∷ rest) (with_registered is_upper announce h sc conf rest others r).0
  unfolding IsHandled
  with_registered-IsHandled conf rpc rest (os, result) (r, inr e) b here later done =
      absurd (ground arith)
  with_registered-IsHandled conf rpc rest (os, inr e) (r, inl names) b here later done =
      elim (Bool-cases (announce sc names conf.address)) [
        | inl announced ↦ absurd (ground arith)
        | inr refused ↦ absurd (ground arith)
      ]
  with_registered-IsHandled conf rpc rest (os, inl b') (r, inl names) b here later done =
      elim (Bool-cases (announce sc names conf.address)) [
        | inl announced ↦ rw announced (refl, here names refl, later b' refl)
        | inr refused ↦ absurd (ground arith)
      ]

  -- If no error ends the inner loop, each server of the configuration's protocol finds the handler's
  -- suitable methods behind it, and each other server is as it was.
  pub handle_servers-IsHandled :
      (servers : Servers) (b : Bool)
      → is_text_empty h.service ≡ false
      → (handle_servers is_upper announce h sc servers).1 ≡ inl b
      → IsHandled servers (handle_servers is_upper announce h sc servers).0
  unfolding handle_servers IsHandled
  handle_servers-IsHandled [] b full done = tt
  handle_servers-IsHandled ((conf, rpc) ∷ rest) b full done =
      elim (Bool-cases (text_key.same conf.protocol sc.protocol)) [
        | inr other ↦ rw other (
          refl,
          (λ e. absurd (ground arith), λ e. refl),
          handle_servers-IsHandled rest b full (rw other at done),
        )
        | inl same ↦ rw same (
            with_registered-IsHandled conf rpc rest (handle_servers is_upper announce h sc rest)
              (register is_upper rpc h) b (λ names. registered-HandledOn conf rpc names full same)
              (λ b'. handle_servers-IsHandled rest b' full) (rw same at done))
      ]
