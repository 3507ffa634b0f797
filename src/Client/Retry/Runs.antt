-- ===== src/Client/Retry/Runs.antt =====
-- Runs of a call of the client.
use dubbogo.Base.{ℕ, ◌≡◌, refl, inr, false, none, some, [], ◌∷◌, ◌==◌, if◌then◌else◌}
use dubbogo.Client.Retry.{retry, call, Surroundings}

-- Three providers; the second one answers.
abbrev second_answers : Surroundings ℕ
second_answers = record {
  next = λ i. inr i;
  send = λ i url. if url == 1 then none else some (b'x' ∷ []);
  done = λ i. false;
}

abbrev none_answers : Surroundings ℕ
none_answers = record {
  next = λ i. inr i;
  send = λ i url. some (b'x' ∷ url ∷ []);
  done = λ i. false;
}

-- Without retries the call returns nil though it sent nothing.
without_retries : call none_answers none false 0 ≡ none
unfolding call retry
without_retries = refl
