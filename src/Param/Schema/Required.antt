-- ===== src/Param/Schema/Required.antt =====
-- What the generated schema says: the required names, and the property of each name.
use rediver_sdk_go.Prelude.{
  ◌≡◌, refl, ◌∙◌, inl, inr, true, Bool-cases, Option, none, some, is_some, List, [], ◌∷◌, ◌++◌,
  append_assoc, String, All, eq_refl, if◌then◌else◌, str_eq, elems, append-nil, ap, sym, subst,
  fun_ext,
}
use rediver_sdk_go.Param.Builder.{Param}
use rediver_sdk_go.Param.Schema.{
  insert, lookup, lookup-insert, Property, Schema, property, fill, when_non_nil,
  params_to_json_schema,
}

elems-when_non_nil : (xs : List String) → elems (when_non_nil xs) ≡ xs
elems-when_non_nil [] = refl
elems-when_non_nil (x ∷ xs) = refl

module _ {F O : Type 0} where
  -- The names of the required parameters, in the order of declaration.
  abbrev pub required_names : List (Param F O) → List String
  required_names [] = []
  required_names (p ∷ ps) = if p.required then p.name ∷ required_names ps else required_names ps

  -- The property of the last parameter with the name, `d` where there is none.
  abbrev pub last_property :
      String → List (Param F O) → Option (Property F O) → Option (Property F O)
  last_property n [] d = d
  last_property n (p ∷ ps) d = last_property n ps (if str_eq p.name n then some (property p) else d)

  fill-required :
      (ps : List (Param F O)) (props : List (String × Property F O)) (req : List String)
      → (fill ps props req).1 ≡ req ++ required_names ps
  unfolding fill property
  fill-required [] props req = rw append-nil
  fill-required (p ∷ ps) props req = elim (Bool-cases p.required) [
    | inl r ↦ rw r (
        fill-required ps (insert p.name (property p) props) (req ++ p.name ∷ [])
        ∙ append_assoc req (p.name ∷ []) (required_names ps))
    | inr r ↦ rw r (fill-required ps (insert p.name (property p) props) req)
  ]

  fill-properties :
      (n : String) (ps : List (Param F O)) (props : List (String × Property F O))
      (req : List String)
      → lookup n (fill ps props req).0 ≡ last_property n ps (lookup n props)
  unfolding fill
  fill-properties n [] props req = refl
  fill-properties n (p ∷ ps) props req =
      fill-properties n ps (insert p.name (property p) props) _
      ∙ ap (last_property n ps) (lookup-insert p.name n (property p) props)

  -- A name that has a property keeps one.
  last_property-is_some :
      (n : String) (ps : List (Param F O)) (d : Option (Property F O))
      → is_some d ≡ true
      → is_some (last_property n ps d) ≡ true
  last_property-is_some n [] d h = h
  last_property-is_some n (p ∷ ps) d h = elim (Bool-cases (str_eq p.name n)) [
    | inl e ↦ rw e (last_property-is_some n ps (some (property p)) refl)
    | inr e ↦ rw e (last_property-is_some n ps d h)
  ]

  declared_head :
      (p : Param F O) (ps : List (Param F O)) (d : Option (Property F O))
      → is_some (last_property p.name (p ∷ ps) d) ≡ true
  declared_head p ps d =
      rw (eq_refl p.name) (last_property-is_some p.name ps (some (property p)) refl)

  required_declared :
      (ps : List (Param F O)) (d : String → Option (Property F O))
      → All (λ n. is_some (last_property n ps (d n)) ≡ true) (required_names ps)
  unfolding property
  required_declared [] d = tt
  required_declared (p ∷ ps) d = elim (Bool-cases p.required) [
    | inl r ↦ rw r (
      declared_head p ps (d p.name),
      required_declared ps (λ n. if str_eq p.name n then some (property p) else d n),
    )
    | inr r ↦ rw r (required_declared ps (λ n. if str_eq p.name n then some (property p) else d n))
  ]

  -- Every required name of a schema has a property in it.
  abbrev pub AllDeclared : Schema F O → Type 0
  AllDeclared s = All (λ n. is_some (lookup n s.properties) ≡ true) (elems s.required)

  -- The schema of a non-empty list of parameters: its required names are those of the required
  -- parameters in order of declaration (the key is left out where there are none), each of them has
  -- a property, and the property of a name is that of the last parameter with the name.
  pub params_to_json_schema_lem :
      (p : Param F O) (ps : List (Param F O))
      → (s : Schema F O) × (params_to_json_schema (p ∷ ps) ≡ some s)
        × (s.required ≡ when_non_nil (required_names (p ∷ ps)))
        × AllDeclared s
        × ((n : String) → lookup n s.properties ≡ last_property n (p ∷ ps) none)
  unfolding params_to_json_schema lookup
  params_to_json_schema_lem p ps = (
    _,
    refl,
    ap when_non_nil (fill-required (p ∷ ps) [] []),
    subst (λ ns. All (λ n. is_some (lookup n (fill (p ∷ ps) [] []).0) ≡ true) ns)
        (sym (elems-when_non_nil _ ∙ fill-required (p ∷ ps) [] []))
        (subst
          (λ (f : String → Option (Property F O)).
            All (λ n. is_some (f n) ≡ true) (required_names (p ∷ ps)))
          (sym (fun_ext (λ n. fill-properties n (p ∷ ps) [] [])))
          (required_declared (p ∷ ps) (λ _. none))),
    λ n. fill-properties n (p ∷ ps) [] [],
  )
