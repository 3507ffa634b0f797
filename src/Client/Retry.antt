-- ===== src/Client/Retry.antt =====
-- `Call` of client/rpc_client.go: a provider is selected and tried, as often as the retries allow.
pub mod Results
mod Runs
use dubbogo.Base.{
  ℕ, zero, suc, ◌⊎◌, inl, inr, Bool, true, false, Option, none, some, List, [], ◌∷◌, if◌then◌else◌,
}

-- The errors of the selector: its ErrNotFound, or another one.
pub data SelectError : Type 0 where
  not_found : SelectError
  other_error : SelectError

-- What `Call` returns beside nil: an error of package common, or the text of an attempt's error.
pub data CallError : Type 0 where
  service_not_found : CallError
  internal_server_error : CallError
  request_timeout : CallError
  failed : List ℕ → CallError

-- A result of the selector: `inl` is an error.
abbrev pub Selected : Type 0 → Type 0
Selected A = SelectError ⊎ A

-- What the attempts of a call, numbered from 0, meet: what `next` gives, the error of `c.call` as its
-- text, and whether the select of the attempt sees the end of the context.
pub record Surroundings (Url : Type 0) : Type 0 where
  pub next : ℕ → Selected Url
  pub send : ℕ → Url → Option (List ℕ)
  pub done : ℕ → Bool

-- `common.NotFound` for ErrNotFound, and `common.InternalServerError` for the rest.
unfoldable pub selection_error : SelectError → CallError
selection_error not_found = service_not_found
selection_error other_error = internal_server_error

-- `jerrors.Trace` keeps a nil error nil, and another error's text.
unfoldable pub sent : Option (List ℕ) → Option CallError
sent none = none
sent (some text) = some (failed text)

-- `err == nil || len(err.Error()) == 0`
unfoldable pub is_success : Option CallError → Bool
is_success none = true
is_success (some (failed [])) = true
is_success (some (failed (c ∷ cs))) = false
is_success (some service_not_found) = false
is_success (some internal_server_error) = false
is_success (some request_timeout) = false

module _ {Url : Type 0} (w : Surroundings Url) where
  unfoldable pub send_to : ℕ → Selected Url → Option CallError
  send_to i (inl e) = some (selection_error e)
  send_to i (inr url) = sent (w.send i url)

  -- The function `call` of attempt `i`.
  unfoldable pub attempt : ℕ → Option CallError
  attempt i = send_to i (w.next i)

  -- The loop over the attempts from `i` on, `retries` in number; `gerr` is the last error.
  unfoldable pub retry : ℕ → ℕ → Option CallError → Option CallError
  retry zero i gerr = gerr
  retry (suc retries) i gerr =
      let rest = retry retries (suc i) (attempt i) in
      if w.done i then some request_timeout else if is_success (attempt i) then none else rest

  -- `Call`, from the selector's error and whether the context is over before the attempts; `none`
  -- is the nil error.
  unfoldable pub call : Option SelectError → Bool → ℕ → Option CallError
  call (some e) early_done retries = some (selection_error e)
  call none early_done retries = if early_done then some request_timeout else retry retries 0 none
