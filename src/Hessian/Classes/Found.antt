-- ===== src/Hessian/Classes/Found.antt =====
-- What a registration of pojo.go leaves in the tables.
use dubbogo.Base.{
  ℕ, suc, ◌≡◌, refl, ap, ◌∙◌, subst, ◌≢◌, inl, inr, true, false, Option, none, some, List, [], ◌∷◌,
  ◌++◌, map, arith, Bool-cases, length, get_elem?-last, Outcome, ok, string_key, nat_key, text_beq,
  text_beq→eq, text_key, lookup, lookup-insert,
}
use dubbogo.Hessian.Text.{Text}
use dubbogo.Hessian.Classes.{
  type_of, set_j2g, class_of, struct_of, add_class, add_fields, register_new, register_unless,
  lowered, pojo_fields, register_pojo, enum_fields, register_java_enum, index_of,
  check_pojo_registry, struct_named, get_struct_info, go_name_of, found_def, def_of,
  get_struct_def_by_index, pojo_of, fields_of, register, GoType, Pojo, StructInfo, PojoRegistry,
  Registration, of_pojo, of_enum,
}
use dubbogo.Hessian.Classes.Consistency.{has_new}

-- The class `i` of the value `o`, as each of the tables gives it.
abbrev pub IsFound : (GoType → Option (List Text)) → Pojo → ℕ → PojoRegistry → Type 0
IsFound fields o i r =
    (s : StructInfo) × (fs : List Text) × (type_of o.shape ≡ some s.typ)
    × (fields s.typ ≡ some fs)
    × (get_struct_info o.java_class_name r ≡ some s)
    × (check_pojo_registry s.typ.name r ≡ (i, true))
    × (get_struct_def_by_index i r ≡ some (s.typ, class_of o fs))

add_class-IsFound :
    (fields : GoType → Option (List Text)) (o : Pojo) (t : GoType) (fs : List Text)
    (r : PojoRegistry)
    → type_of o.shape ≡ some t
    → fields t ≡ some fs
    → IsFound fields o
        (length r.class_info_list)
        (add_class o t fs (set_j2g o.java_class_name t.name r)).1
unfolding add_class set_j2g get_struct_info struct_named check_pojo_registry index_of
    get_struct_def_by_index def_of found_def go_name_of
add_class-IsFound fields o t fs r e g =
    let java = has_new o.java_class_name t.name r.j2g in
    let go = has_new t.name (struct_of o t r) r.registry in
    let class = get_elem?-last (class_of o fs) r.class_info_list in
    (struct_of o t r, fs, e, g, rw (java, go) refl, rw go refl, rw (class, java, go) refl)

same_index :
    (i j : ℕ) (r r' : PojoRegistry)
    → ◌≡◌ {A = Outcome (Option ℕ) × PojoRegistry} (ok (some i), r) (ok (some j), r')
    → i ≡ j
same_index i j r r' h = grind arith

add_fields-IsFound :
    (fields : GoType → Option (List Text)) (o : Pojo) (t : GoType) (found : Option (List Text))
    (r r' : PojoRegistry) (i : ℕ)
    → type_of o.shape ≡ some t
    → fields t ≡ found
    → add_fields o t found (set_j2g o.java_class_name t.name r) ≡ (ok (some i), r')
    → IsFound fields o i r'
unfolding add_fields add_class set_j2g
add_fields-IsFound fields o t none r r' i e g h = absurd (grind arith)
add_fields-IsFound fields o t (some fs) r r' i e g h =
    subst (λ j. IsFound fields o j r') (same_index _ i _ r' h)
      (subst (IsFound fields o (length r.class_info_list)) (ap (λ p. p.1) h)
        (add_class-IsFound fields o t fs r e g))

register_new-IsFound :
    (fields : GoType → Option (List Text)) (o : Pojo) (t : Option GoType) (r r' : PojoRegistry)
    (i : ℕ)
    → type_of o.shape ≡ t
    → register_new fields o t r ≡ (ok (some i), r')
    → IsFound fields o i r'
unfolding register_new
register_new-IsFound fields o none r r' i e h = absurd (grind arith)
register_new-IsFound fields o (some t) r r' i e h =
    add_fields-IsFound fields o t (fields t) r r' i e refl h

register_unless-IsFound :
    (known : Option StructInfo) (fields : GoType → Option (List Text)) (o : Pojo)
    (r r' : PojoRegistry) (i : ℕ)
    → register_unless known fields o r ≡ (ok (some i), r')
    → IsFound fields o i r'
unfolding register_unless
register_unless-IsFound none fields o r r' i h =
    register_new-IsFound fields o (type_of o.shape) r r' i refl h
register_unless-IsFound (some s) fields o r r' i h = absurd (grind arith)

pub register-IsFound :
    (to_lower : Text → Text) (call : Registration) (i : ℕ) (r r' : PojoRegistry)
    → register to_lower call r ≡ (ok (some i), r')
    → IsFound (fields_of to_lower call) (pojo_of call) i r'
unfolding register register_pojo register_java_enum
register-IsFound to_lower (of_pojo o) i r r' h =
    register_unless-IsFound (lookup o.java_class_name r.registry) (pojo_fields to_lower) o r r' i h
register-IsFound to_lower (of_enum o) i r r' h =
    register_unless-IsFound (lookup o.java_class_name r.registry) (enum_fields to_lower) o r r' i h

text_beq-false : (xs ys : Text) → xs ≢ ys → text_beq xs ys ≡ false
text_beq-false xs ys h = elim (Bool-cases (text_beq xs ys)) [
  | inl y ↦ absurd (h (text_beq→eq xs ys y))
  | inr n ↦ n
]

length_snoc : {A : Type 0} (a : A) (xs : List A) → length (xs ++ (a ∷ [])) ≡ suc (length xs)
length_snoc a [] = refl
length_snoc a (x ∷ xs) = ap suc (length_snoc a xs)

register_pojo_new :
    (to_lower : Text → Text) (o : Pojo) (t : GoType) (fs : List Text) (r : PojoRegistry)
    → type_of o.shape ≡ some t
    → t.struct_fields ≡ some fs
    → lookup o.java_class_name r.registry ≡ none
    → register_pojo to_lower o r
      ≡ add_class o t (map to_lower fs) (set_j2g o.java_class_name t.name r)
unfolding register_pojo register_unless register_new add_fields lowered
register_pojo_new to_lower o t fs r e g missing =
    rw (missing, e)
      (ap (λ x. add_fields o t (lowered to_lower x) (set_j2g o.java_class_name t.name r)) g)

-- A class whose Go name is not its Java name is registered a second time, under the next index.
pub registered_twice :
    (to_lower : Text → Text) (o : Pojo) (t : GoType) (fs : List Text) (r : PojoRegistry)
    → type_of o.shape ≡ some t
    → t.struct_fields ≡ some fs
    → t.name ≢ o.java_class_name
    → lookup o.java_class_name r.registry ≡ none
    → (register_pojo to_lower o (register_pojo to_lower o r).1).0
      ≡ ok (some (suc (length r.class_info_list)))
unfolding add_class set_j2g
registered_twice to_lower o t fs r e g names missing =
    let still =
      lookup-insert t.name o.java_class_name (struct_of o t r) r.registry
      ∙ rw (text_beq-false t.name o.java_class_name names, missing) refl in
    let class = map to_lower fs in
    let first = register_pojo_new to_lower o t fs r e g missing in
    let again = add_class o t class (set_j2g o.java_class_name t.name r) in
    let second = register_pojo_new to_lower o t fs again.1 e g still in
    ap (λ p. (register_pojo to_lower o p.1).0) first
    ∙ ap (λ p. p.0) second
    ∙ ap (λ n. ok (some n)) (length_snoc (class_of o class) r.class_info_list)
