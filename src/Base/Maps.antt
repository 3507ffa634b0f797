-- ===== src/Base/Maps.antt =====
-- Go maps as association lists, over any key type with a Boolean equality.
use Prim.Native.Nat.{ℕ}
use Prim.Native.String.{String}
use mathlib.Core.Path.{◌≡◌, refl, subst}
use mathlib.Core.Logic.{◌↔◌}
use mathlib.Core.Bool.{Bool, true, false, ◌&&◌}
use mathlib.Core.List.{List, [], ◌∷◌}
use mathlib.Core.Option.{Option, none, some}
use native.Mathlib.Omega.{arith}
use text.Mathlib.Text.{◌==◌ as str_eq}
use text.Mathlib.TextEquality.{eq_iff}
use dubbogo.Base.Tests.{◌==◌ as nat_beq, ==_iff as nat_beq_iff, if◌then◌else◌}

-- A type whose values serve as map keys.
pub record Key {ℓ} (K : Type ℓ) : Type ℓ where
  pub same : K → K → Bool
  pub same_iff : (j k : K) → (same j k ≡ true) ↔ (j ≡ k)

instance abbrev pub string_key : Key String
string_key = record { same_iff = eq_iff; same = str_eq }

instance abbrev pub nat_key : Key ℕ
nat_key = record { same_iff = nat_beq_iff; same = nat_beq }

-- Texts by their codes.
unfoldable pub text_beq : List ℕ → List ℕ → Bool
text_beq [] [] = true
text_beq (x ∷ xs) [] = false
text_beq [] (y ∷ ys) = false
text_beq (x ∷ xs) (y ∷ ys) = nat_beq x y && text_beq xs ys

pub text_beq→eq : (xs ys : List ℕ) → text_beq xs ys ≡ true → xs ≡ ys
unfolding text_beq
text_beq→eq [] [] h = refl
text_beq→eq (x ∷ xs) [] h = ground arith
text_beq→eq [] (y ∷ ys) h = ground arith
text_beq→eq (x ∷ xs) (y ∷ ys) h = ground (arith, text_beq→eq xs ys)

pub text_beq_refl : (xs : List ℕ) → text_beq xs xs ≡ true
unfolding text_beq
text_beq_refl [] = refl
text_beq_refl (x ∷ xs) = ground (arith, text_beq_refl xs)

instance abbrev pub text_key : Key (List ℕ)
text_key = record {
  same = text_beq;
  same_iff =
      λ xs ys. (text_beq→eq xs ys, λ e. subst (λ z. text_beq xs z ≡ true) e (text_beq_refl xs));
}

abbrev pub Dict {ℓ κ} : Type ℓ → Type κ → Type (ℓ ⊔ κ)
Dict K V = List (K × V)

pub same_self {ℓ} : {K : Type ℓ} ⦃key : Key K⦄ (k : K) → key.same k k ≡ true
same_self ⦃key⦄ k = (key.same_iff k k).1 refl

module _ {ℓ κ} {K : Type ℓ} ⦃key : Key K⦄ {V : Type κ} where
  -- `m[k]`, with `none` where the key is missing.
  unfoldable pub lookup : K → Dict K V → Option V
  lookup k [] = none
  lookup k ((key', old) ∷ rest) = if key.same key' k then some old else lookup k rest

  -- `m[k] = v`
  unfoldable pub insert : K → V → Dict K V → Dict K V
  insert k v [] = (k, v) ∷ []
  insert k v ((key', old) ∷ rest) =
      let others = insert k v rest in
      if key.same key' k then (k, v) ∷ rest else (key', old) ∷ others

  -- `delete(m, k)`
  unfoldable pub delete : K → Dict K V → Dict K V
  delete k [] = []
  delete k ((key', old) ∷ rest) =
      let others = delete k rest in if key.same key' k then others else (key', old) ∷ others

  pub lookup-delete :
      (gone k : K) (entries : Dict K V)
      → lookup k (delete gone entries) ≡ (if key.same gone k then none else lookup k entries)
  unfolding lookup delete
  lookup-delete gone k [] = ground arith
  lookup-delete gone k ((key', old) ∷ rest) = ground (
    arith,
    lookup-delete gone k rest,
    key.same_iff key' gone,
    key.same_iff key' k,
    key.same_iff gone k,
  )

  pub lookup-insert :
      (new k : K) (v : V) (entries : Dict K V)
      → lookup k (insert new v entries) ≡ (if key.same new k then some v else lookup k entries)
  unfolding lookup insert
  lookup-insert new k v [] = refl
  lookup-insert new k v ((key', old) ∷ rest) = ground (
    arith,
    lookup-insert new k v rest,
    key.same_iff new k,
    key.same_iff key' new,
    key.same_iff key' k,
  )
