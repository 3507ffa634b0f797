-- ===== src/Client/Retry/Results.antt =====
-- When a call of the client succeeds, and what it returns otherwise.
use native.Mathlib.Nat.{add-zero}
use dubbogo.Base.{ℕ, zero, suc, ◌+◌, ◌≤◌, ◌≡◌, refl, ap, ◌∙◌, true, false, Option, none, arith}
use dubbogo.Client.Retry.{is_success, attempt, retry, call, CallError, Surroundings}

module _ {Url : Type 0} (w : Surroundings Url) where
  -- Attempt `i` is over before the context and fails.
  abbrev pub Fails : ℕ → Type 0
  Fails i = (w.done i ≡ false) × (is_success (attempt w i) ≡ false)

  -- Of the attempts from `i` on, `n` fail and the next one succeeds within the context.
  abbrev pub SucceedsAfter : ℕ → ℕ → Type 0
  SucceedsAfter zero i = (w.done i ≡ false) × (is_success (attempt w i) ≡ true)
  SucceedsAfter (suc n) i = Fails i × SucceedsAfter n (suc i)

  retry-last :
      (retries i : ℕ) (gerr : Option CallError)
      → ((j : ℕ) → i ≤ j → j ≤ i + retries → Fails j)
      → retry w (suc retries) i gerr ≡ attempt w (i + retries)
  unfolding retry
  retry-last zero i gerr fails =
      let (live, bad) = fails i (omega arith) (omega arith) in rw (add-zero, live, bad) refl
  retry-last (suc retries) i gerr fails =
      let (live, bad) = fails i (omega arith) (omega arith) in
      let step : retry w (suc (suc retries)) i gerr ≡ retry w (suc retries) (suc i) (attempt w i) =
        rw (live, bad) refl in
      let later =
        retry-last retries (suc i) (attempt w i)
          (λ j low high. fails j (omega arith) (omega arith)) in
      let sum : suc i + retries ≡ i + suc retries = omega arith in step ∙ later ∙ ap (attempt w) sum

  -- Where each of the attempts fails within the context, the error of the last one is returned.
  pub call-last_error :
      (retries : ℕ)
      → ((i : ℕ) → i ≤ retries → Fails i)
      → call w none false (suc retries) ≡ attempt w retries
  unfolding call
  call-last_error retries fails =
      let sum : 0 + retries ≡ retries = omega arith in
      retry-last retries 0 none (λ j low high. fails j (omega arith)) ∙ ap (attempt w) sum
