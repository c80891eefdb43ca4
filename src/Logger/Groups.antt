-- ===== src/Logger/Groups.antt =====
-- The text of a record against slog's contract, by which a group qualifies the keys of the
-- attributes that are added after it.
use rediver_sdk_go.Prelude.{
  ◌≡◌, refl, sym, ap, ap₂, ◌∙◌, inl, inr, true, Bool-cases, String, is_empty, ◌<>◌, List, [], ◌∷◌,
  ◌++◌, map, append-nil, append_assoc, ℤ, some, if◌then◌else◌,
}
use text.Mathlib.TextLemmas
use rediver_sdk_go.Logger.{
  Attr, Record, Handler, slog_level_to_log_level, write_groups, write_attr, write_attrs,
  format_log_record, handle, new_job_log_handler, with_attrs, with_group,
}

-- The calls that derive a handler from another, the first first.
pub data Derivation (V : Type 0) : Type 0 where
  attrs : List (Attr V) → Derivation V
  group : String → Derivation V

module _ {V : Type 0} where
  unfoldable pub derive : List (Derivation V) → Handler V → Handler V
  unfolding with_attrs with_group
  derive [] h = h
  derive (attrs as' ∷ ds) h = derive ds (with_attrs as' h)
  derive (group g ∷ ds) h = derive ds (with_group g h)

  abbrev pub groups_of : List (Derivation V) → List String
  groups_of [] = []
  groups_of (attrs as' ∷ ds) = groups_of ds
  groups_of (group g ∷ ds) = g ∷ groups_of ds

  abbrev pub attrs_of : List (Derivation V) → List (Attr V)
  attrs_of [] = []
  attrs_of (attrs as' ∷ ds) = as' ++ attrs_of ds
  attrs_of (group g ∷ ds) = attrs_of ds

  -- The same groups and attributes, with all groups opened first.
  abbrev pub groups_first : List (Derivation V) → List (Derivation V)
  groups_first ds = map group (groups_of ds) ++ attrs (attrs_of ds) ∷ []

  derive-groups :
      (ds : List (Derivation V)) (h : Handler V) → (derive ds h).groups ≡ h.groups ++ groups_of ds
  unfolding derive with_attrs with_group
  derive-groups [] h = sym (append-nil h.groups)
  derive-groups (attrs as' ∷ ds) h = derive-groups ds (with_attrs as' h)
  derive-groups (group g ∷ ds) h =
      derive-groups ds (with_group g h) ∙ append_assoc h.groups (g ∷ []) (groups_of ds)

  derive-attrs :
      (ds : List (Derivation V)) (h : Handler V) → (derive ds h).attrs ≡ h.attrs ++ attrs_of ds
  unfolding derive with_attrs with_group
  derive-attrs [] h = sym (append-nil h.attrs)
  derive-attrs (attrs as' ∷ ds) h =
      derive-attrs ds (with_attrs as' h) ∙ append_assoc h.attrs as' (attrs_of ds)
  derive-attrs (group g ∷ ds) h = derive-attrs ds (with_group g h)

  derive-has_log_fn :
      (ds : List (Derivation V)) (h : Handler V) → (derive ds h).has_log_fn ≡ h.has_log_fn
  unfolding derive with_attrs with_group
  derive-has_log_fn [] h = refl
  derive-has_log_fn (attrs as' ∷ ds) h = derive-has_log_fn ds (with_attrs as' h)
  derive-has_log_fn (group g ∷ ds) h = derive-has_log_fn ds (with_group g h)

abbrev pub qualifier : List String → String
qualifier [] = ""
qualifier (g ∷ gs) = g <> "." <> qualifier gs

module _ {V : Type 0} (sprint : V → String) where
  -- One attribute under its groups; one without a key has no text.
  abbrev pub piece : List String → Attr V → String
  piece gs a = if is_empty a.key then "" else " " <> qualifier gs <> a.key <> "=" <> sprint a.value

  abbrev pub pieces : List String → List (Attr V) → String
  pieces gs [] = ""
  pieces gs (a ∷ as') = piece gs a <> pieces gs as'

  -- What slog's contract says that a record's attributes read as on a derived handler: each is
  -- qualified by the groups that were opened before it.
  unfoldable pub rendered : List String → List (Derivation V) → List (Attr V) → String
  rendered gs [] as' = pieces gs as'
  rendered gs (attrs bs ∷ ds) as' = pieces gs bs <> rendered gs ds as'
  rendered gs (group g ∷ ds) as' = rendered (gs ++ g ∷ []) ds as'

  write_groups_lem : (gs : List String) (b : String) → write_groups b gs ≡ b <> qualifier gs
  unfolding write_groups
  write_groups_lem [] b = sym (TextLemmas.append-nil b)
  write_groups_lem (g ∷ gs) b = write_groups_lem gs ((b <> g) <> ".") ∙ simp TextLemmas.append_assoc

  write_attr_lem :
      (gs : List String) (b : String) (a : Attr V) → write_attr sprint gs b a ≡ b <> piece gs a
  unfolding write_attr
  write_attr_lem gs b a = elim (Bool-cases (is_empty a.key)) [
    | inl blank ↦ rw blank (sym (TextLemmas.append-nil b))
    | inr full ↦ rw full (rw (write_groups_lem gs (b <> " ")) (simp TextLemmas.append_assoc))
  ]

  write_attrs_lem :
      (gs : List String) (as' : List (Attr V)) (b : String)
      → write_attrs sprint gs b as' ≡ b <> pieces gs as'
  unfolding write_attrs
  write_attrs_lem gs [] b = sym (TextLemmas.append-nil b)
  write_attrs_lem gs (a ∷ as') b =
      write_attrs_lem gs as' (write_attr sprint gs b a)
      ∙ ap (λ s. s <> pieces gs as') (write_attr_lem gs b a)
      ∙ TextLemmas.append_assoc b (piece gs a) (pieces gs as')

  rendered-groups :
      (gs hs : List String) (ds : List (Derivation V)) (as' : List (Attr V))
      → rendered gs (map group hs ++ ds) as' ≡ rendered (gs ++ hs) ds as'
  unfolding rendered
  rendered-groups gs [] ds as' = ap (λ l. rendered l ds as') (sym (append-nil gs))
  rendered-groups gs (h ∷ hs) ds as' =
      rendered-groups (gs ++ h ∷ []) hs ds as'
      ∙ ap (λ l. rendered l ds as') (append_assoc gs (h ∷ []) hs)

  format_log_record_lem :
      (r : Record V) (gs : List String) (pre : List (Attr V))
      → format_log_record sprint r gs pre ≡ r.message <> pieces gs pre <> pieces gs r.attrs
  unfolding format_log_record
  format_log_record_lem r gs pre =
      write_attrs_lem gs r.attrs (write_attrs sprint gs r.message pre)
      ∙ ap (λ s. s <> pieces gs r.attrs) (write_attrs_lem gs pre r.message)
      ∙ TextLemmas.append_assoc r.message (pieces gs pre) (pieces gs r.attrs)

  rendered-groups_first :
      (ds : List (Derivation V)) (as' : List (Attr V))
      → rendered [] (groups_first ds) as'
        ≡ pieces (groups_of ds) (attrs_of ds) <> pieces (groups_of ds) as'
  unfolding rendered
  rendered-groups_first ds as' = rendered-groups [] (groups_of ds) (attrs (attrs_of ds) ∷ []) as'

  -- However a job's handler is derived from the first one, a record is sent as slog's contract says
  -- for the handler on which all groups were opened first: attributes that were added before a group
  -- are qualified by it too.
  pub handle-groups_first :
      (ds : List (Derivation V)) (level : ℤ) (r : Record V)
      → handle sprint (derive ds (new_job_log_handler true level)) r
        ≡ some (slog_level_to_log_level r.level, r.message <> rendered [] (groups_first ds) r.attrs)
  unfolding handle new_job_log_handler
  handle-groups_first ds level r = rw (derive-has_log_fn ds (new_job_log_handler true level)) (
      ap (λ t. some (slog_level_to_log_level r.level, t))
        (format_log_record_lem r _ _
          ∙ ap₂ (λ gs as'. r.message <> pieces gs as' <> pieces gs r.attrs)
              (derive-groups ds (new_job_log_handler true level))
              (derive-attrs ds (new_job_log_handler true level))
          ∙ ap (λ s. r.message <> s) (sym (rendered-groups_first ds r.attrs))))
