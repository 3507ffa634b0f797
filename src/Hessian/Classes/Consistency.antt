-- ===== src/Hessian/Classes/Consistency.antt =====
-- The three tables of the registry of pojo.go agree whatever is registered.
use dubbogo.Base.{
  ℕ, zero, suc, ◌≡◌, refl, sym, ap, ◌∙◌, subst, ◌⊎◌, inl, inr, Bool, true, false, Option, none,
  some, List, [], ◌∷◌, ◌++◌, arith, if◌then◌else◌, Bool-cases, get_elem?, ok, string_key, nat_key,
  text_beq, text_beq_refl, text_key, Dict, lookup, insert, lookup-insert,
}
use dubbogo.Hessian.Text.{Text}
use dubbogo.Hessian.Classes.{
  type_of, set_j2g, struct_of, add_class, add_fields, register_new, register_unless, register_pojo,
  register_java_enum, go_name_of, found_def, def_of, get_struct_def_by_index, register, GoType,
  Pojo, ClassInfo, StructInfo, PojoRegistry, Registered, of_pojo, of_enum, start, next,
}

-- Each Java name leads to a registered struct, and each listed class to a Java name.
abbrev IsConsistent : PojoRegistry → Type 0
IsConsistent r =
    ((java go : Text)
      → lookup java r.j2g ≡ some go
      → (s : StructInfo) × (lookup go r.registry ≡ some s))
    × ((i : ℕ) (c : ClassInfo)
        → get_elem? r.class_info_list i ≡ some c
        → (go : Text) × (lookup c.java_name r.j2g ≡ some go))

has_insert :
    {V : Type 0} (k j : Text) (v : V) (entries : Dict Text V)
    → ((w : V) × (lookup j entries ≡ some w))
    → (w : V) × (lookup j (insert k v entries) ≡ some w)
has_insert k j v entries (w, e) = elim (Bool-cases (text_beq k j)) [
  | inl y ↦ (v, lookup-insert k j v entries ∙ rw y refl)
  | inr n ↦ (w, lookup-insert k j v entries ∙ rw (n, e) refl)
]

pub has_new :
    {V : Type 0} (k : Text) (v : V) (entries : Dict Text V) → lookup k (insert k v entries) ≡ some v
has_new k v entries = lookup-insert k k v entries ∙ rw (text_beq_refl k) refl

if_cases :
    {V : Type 0} (b : Bool) (v w : V) (o : Option V)
    → (if b then some v else o) ≡ some w
    → (v ≡ w) ⊎ (o ≡ some w)
if_cases true v w o h = inl (grind arith)
if_cases false v w o h = inr h

-- An entry of a map behind an insertion is the new one or was there.
lookup_cases :
    {V : Type 0} (k j : Text) (v w : V) (entries : Dict Text V)
    → lookup j (insert k v entries) ≡ some w
    → (v ≡ w) ⊎ (lookup j entries ≡ some w)
lookup_cases k j v w entries h =
    if_cases (text_beq k j) v w (lookup j entries) (sym (lookup-insert k j v entries) ∙ h)

last_elem :
    {A : Type 0} (i : ℕ) (a b : A) (xs : List A)
    → get_elem? (xs ++ (a ∷ [])) i ≡ some b
    → (get_elem? xs i ≡ some b) ⊎ (a ≡ b)
last_elem zero a b [] h = inr (grind arith)
last_elem (suc i) a b [] h = absurd (grind arith)
last_elem zero a b (x ∷ xs) h = inl h
last_elem (suc i) a b (x ∷ xs) h = last_elem i a b xs h

add_class-IsConsistent :
    (o : Pojo) (t : GoType) (fs : List Text) (r : PojoRegistry)
    → IsConsistent r
    → IsConsistent (add_class o t fs (set_j2g o.java_class_name t.name r)).1
unfolding add_class set_j2g
add_class-IsConsistent o t fs r (names, listed) = (
  λ java go h. elim (lookup_cases o.java_class_name java t.name go r.j2g h) [
    | inl new ↦
        subst
          (λ g. (s : StructInfo) × (lookup g (insert t.name (struct_of o t r) r.registry) ≡ some s))
          new (struct_of o t r, has_new t.name (struct_of o t r) r.registry)
    | inr old ↦ has_insert t.name go _ r.registry (names java go old)
  ],
  λ i c h. elim (last_elem i _ c r.class_info_list h) [
    | inl old ↦ has_insert o.java_class_name c.java_name t.name r.j2g (listed i c old)
    | inr new ↦
        subst
          (λ d.
            (go : Text) × (lookup d.java_name (insert o.java_class_name t.name r.j2g) ≡ some go))
          new (t.name, has_new o.java_class_name t.name r.j2g)
  ],
)

add_fields-IsConsistent :
    (o : Pojo) (t : GoType) (fs : Option (List Text)) (r r' : PojoRegistry) (i : Option ℕ)
    → IsConsistent r
    → add_fields o t fs (set_j2g o.java_class_name t.name r) ≡ (ok i, r')
    → IsConsistent r'
unfolding add_fields
add_fields-IsConsistent o t none r r' i c h = absurd (grind arith)
add_fields-IsConsistent o t (some fs) r r' i c h =
    subst IsConsistent (ap (λ p. p.1) h) (add_class-IsConsistent o t fs r c)

register_new-IsConsistent :
    (fields : GoType → Option (List Text)) (o : Pojo) (t : Option GoType) (r r' : PojoRegistry)
    (i : Option ℕ)
    → IsConsistent r
    → register_new fields o t r ≡ (ok i, r')
    → IsConsistent r'
unfolding register_new
register_new-IsConsistent fields o none r r' i c h = absurd (grind arith)
register_new-IsConsistent fields o (some t) r r' i c h =
    add_fields-IsConsistent o t (fields t) r r' i c h

register_unless-IsConsistent :
    (known : Option StructInfo) (fields : GoType → Option (List Text)) (o : Pojo)
    (r r' : PojoRegistry) (i : Option ℕ)
    → IsConsistent r
    → register_unless known fields o r ≡ (ok i, r')
    → IsConsistent r'
unfolding register_unless
register_unless-IsConsistent none fields o r r' i c h =
    register_new-IsConsistent fields o (type_of o.shape) r r' i c h
register_unless-IsConsistent (some s) fields o r r' i c h = subst IsConsistent (ap (λ p. p.1) h) c

registered-IsConsistent :
    (to_lower : Text → Text) (r : PojoRegistry) → Registered to_lower r → IsConsistent r
unfolding register register_pojo register_java_enum lookup
registered-IsConsistent to_lower _ start =
    (λ java go h. absurd (grind arith), λ i c h. absurd (grind arith))
registered-IsConsistent to_lower r' (next {r = r} {i = i} (of_pojo o) before h) =
    register_unless-IsConsistent _ _ o r r' i (registered-IsConsistent to_lower r before) h
registered-IsConsistent to_lower r' (next {r = r} {i = i} (of_enum o) before h) =
    register_unless-IsConsistent _ _ o r r' i (registered-IsConsistent to_lower r before) h

-- Every class that was listed by calls that did not panic is found by its index, with a Go type.
pub get_struct_def_by_index-found :
    (to_lower : Text → Text) (r : PojoRegistry) (i : ℕ) (c : ClassInfo)
    → Registered to_lower r
    → get_elem? r.class_info_list i ≡ some c
    → (t : GoType) × (get_struct_def_by_index i r ≡ some (t, c))
unfolding get_struct_def_by_index def_of found_def go_name_of
get_struct_def_by_index-found to_lower r i c calls h =
    let (names, listed) = registered-IsConsistent to_lower r calls in
    let (go, e) = listed i c h in let (s, f) = names c.java_name go e in (s.typ, rw (h, e, f) refl)
