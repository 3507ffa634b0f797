-- ===== src/Selector/Mode/Rotation.antt =====
-- Round robin takes every provider in turn.
use mathlib.Core.List.{map-append}
use mathlib.Core.Path.{ap₂}
use native.Mathlib.Nat.{zero-add, add-zero, suc-add, div-add-mod, mod-lt}
use dubbogo.Base.{
  ℕ, zero, suc, ◌+◌, ◌-◌, ◌*◌, ◌/◌, ◌%◌, ◌^◌, ◌≤◌, ◌<◌, ◌≡◌, refl, sym, ap, ◌∙◌, subst, some, List,
  [], ◌∷◌, ◌++◌, map, arith, ==_false, length, take, drop, get_elem?, length-drop, take_all,
}
use dubbogo.Selector.Mode.{at_index, round_robin, attempts, chosen}

rem_unique : (a q n j : ℕ) → a ≡ q * n + j → j < n → a % n ≡ j
rem_unique a q n j e h = grind arith

module _ {A : Type 0} where
  get_drop :
      (xs : List A) (i : ℕ)
      → i < length xs
      → (x : A) × (get_elem? xs i ≡ some x) × (drop i xs ≡ x ∷ drop (suc i) xs)
  get_drop [] i h = absurd (omega arith)
  get_drop (x ∷ xs) zero h = (x, refl, refl)
  get_drop (x ∷ xs) (suc i) h = get_drop xs i (omega arith)

  module _ (services : List A) (id : ℕ) where
    -- One attempt, away from the end of the int64 range.
    round_robin_step :
        (i j : ℕ)
        → 0 < length services
        → id + i + 1 < 2 ^ 63
        → (id + i) % length services ≡ j
        → round_robin services i id ≡ (at_index services (some j), i + 1)
    unfolding round_robin
    round_robin_step i j ne small e =
        rw (==_false (length services) 0 (λ z. omega arith)) (ground arith)

    -- Attempts that do not pass the end of the list.
    attempts_run :
        (r i q j : ℕ)
        → id + i ≡ q * length services + j
        → j + r ≤ length services
        → id + i + r < 2 ^ 63
        → attempts services id i r ≡ map chosen (take r (drop j services))
    unfolding attempts
    attempts_run zero i q j e fits small = refl
    attempts_run (suc r) i q j e fits small =
        let (x, g, d) = get_drop services j (omega arith) in
        rw
          (
            round_robin_step i j (omega arith) (omega arith)
                (rem_unique (id + i) q (length services) j e (omega arith)),
            d,
            g,
          )
          (ap (◌∷◌ (chosen x))
            (attempts_run r (i + 1) q (suc j) (omega arith) (omega arith) (omega arith)))

    attempts_split :
        (a b i : ℕ)
        → id + i + a < 2 ^ 63
        → 0 < length services
        → attempts services id i (a + b)
          ≡ attempts services id i a ++ attempts services id (i + a) b
    unfolding attempts
    attempts_split zero b i small ne = rw (zero-add, add-zero) refl
    attempts_split (suc a) b i small ne =
        let step = round_robin_step i ((id + i) % length services) ne (omega arith) refl in
        rw (suc-add, step, attempts_split a b (i + 1) (omega arith) ne)
          (let e : i + 1 + a ≡ i + suc a = omega arith in rw e refl)

    -- The first attempts of a call, as many as there are providers, take each provider once: they run
    -- through the list from the place that the request's number says, and go on at the front.
    pub attempts_rotation :
        0 < length services
        → id + length services < 2 ^ 63
        → let k = id % length services in
          attempts services id 0 (length services) ≡ map chosen (drop k services ++ take k services)
    attempts_rotation ne small =
        let n = length services in
        let k = id % n in
        let q = id / n in
        let e : id ≡ q * n + k = grind (arith, div-add-mod id n) in
        let lt : k < n = mod-lt id ne in
        subst (λ m. attempts services id 0 m ≡ map chosen (drop k services ++ take k services))
          (omega arith)
          (attempts_split (n - k) k 0 (omega arith) ne
            ∙ ap₂ ◌++◌
                (attempts_run (n - k) 0 q k (omega arith) (omega arith) (omega arith)
                  ∙ ap (map chosen)
                      (take_all (n - k) (drop k services) (omega (arith, length-drop k services))))
                (attempts_run k (0 + (n - k)) (q + 1) 0 (omega arith) (omega arith) (omega arith))
            ∙ sym (map-append chosen (drop k services) (take k services)))
