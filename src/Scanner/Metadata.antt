-- ===== src/Scanner/Metadata.antt =====
-- syncScannerMetadata of agent_metadata.go: the request that it sends, if any.
-- The type assertions on the scanner are values: what each method returns where the scanner has it.
use rediver_sdk_go.Prelude.{
  All, ◌≡◌, refl, sym, ap, ◌∙◌, Bool, true, false, ◌||◌, String, non_empty, Option, none, some,
  is_some, List, [], ◌∷◌, map, if◌then◌else◌, arith,
}
use rediver_sdk_go.Param.Value.{Value}
use rediver_sdk_go.Param.Builder.{Param}
use rediver_sdk_go.Param.Schema.{Schema, params_to_json_schema}
use rediver_sdk_go.Convert.Message.{ProtoAssetType}
use rediver_sdk_go.Convert.Enums.{to_proto_asset_type}
use rediver_sdk_go.Scanner.{
  Scanner, ScannerOption, ScanFunc, new_scanner, apply_options, apply_option, supports_retest,
  with_param, with_params, with_raw_params_schema, with_display_name, with_retest_handler,
}

-- What the code asks a value of the interface type Scanner: the methods of the interface, and the
-- three that it may have besides.
pub record Described (F O : Type 0) : Type 0 where
  pub name : String
  pub params : List (Param F O)
  pub asset_types : List String
  pub display_name : Option String
  pub params_schema : Option (Option (List (String × Value F O)))
  pub supports_retest : Option Bool

-- A scanner of the SDK has all of them.
unfoldable pub described : {S F O G : Type 0} → Scanner S F O G → Described F O
unfolding supports_retest
described s = record {
  name = s.name;
  params = s.params;
  asset_types = s.asset_types;
  display_name = some s.display_name;
  params_schema = some s.params_schema;
  supports_retest = some (supports_retest s);
}

-- `O` is structpb.Value, so a structpb.Struct is a list of named values.
pub record UpdateScannerRequest (O : Type 0) : Type 0 where
  pub name : String
  pub display_name : Option String
  pub params_schema : Option (List (String × O))
  pub asset_types : List ProtoAssetType
  pub supports_retest : Option Bool

-- `structpb.NewStruct` on a raw map and on the map that ParamsToJSONSchema makes.
pub record Structs (F O : Type 0) : Type 0 where
  pub of_map : List (String × Value F O) → Option (List (String × O))
  pub of_schema : Schema F O → Option (List (String × O))

abbrev full_text : Option String → Option String
full_text none = none
full_text (some s) = if non_empty s then some s else none

abbrev bind {ℓ κ} : {A : Type ℓ} {B : Type κ} → Option A → (A → Option B) → Option B
bind none f = none
bind (some a) f = f a

abbrev only_true : Option Bool → Option Bool
only_true (some true) = some true
only_true _ = none

unfoldable to_proto_asset_types : List String → List ProtoAssetType
unfolding to_proto_asset_type
to_proto_asset_types types = map to_proto_asset_type types

module _ {F O : Type 0} (structs : Structs F O) where
  -- The second block: the raw schema where the scanner has the method, the derived one where not.
  unfoldable pub request_schema : Described F O → Option (List (String × O))
  unfolding params_to_json_schema
  request_schema d = elim d.params_schema [
    | some raw ↦ bind raw structs.of_map
    | none ↦ bind (params_to_json_schema d.params) structs.of_schema
  ]

  abbrev non_nil {ℓ} : {A : Type ℓ} → List A → Bool
  non_nil [] = false
  non_nil (x ∷ xs) = true

  -- `none` where nothing needs an update, and no request is sent.
  unfoldable pub metadata_request : Described F O → Option (UpdateScannerRequest O)
  unfolding request_schema to_proto_asset_types
  metadata_request d =
      let display_name = full_text d.display_name in
      let schema = request_schema d in
      let retest = only_true d.supports_retest in
      if is_some display_name || is_some schema || non_nil d.asset_types || is_some retest
      then some (record {
        name = d.name;
        display_name = display_name;
        params_schema = schema;
        asset_types = to_proto_asset_types d.asset_types;
        supports_retest = retest;
      })
      else none

  -- The schema that reaches the server: the request's, if one is sent.
  abbrev pub sent_schema : Option (UpdateScannerRequest O) → Option (List (String × O))
  sent_schema none = none
  sent_schema (some r) = r.params_schema

  sent_schema-if :
      (needs_update : Bool) (r : UpdateScannerRequest O)
      → (needs_update ≡ false → r.params_schema ≡ none)
      → sent_schema (if needs_update then some r else none) ≡ r.params_schema
  sent_schema-if true r h = refl
  sent_schema-if false r h = sym (h refl)

  -- A schema that is there is sent.
  sent_schema-metadata_request :
      (d : Described F O) → sent_schema (metadata_request d) ≡ request_schema d
  unfolding metadata_request
  sent_schema-metadata_request d = sent_schema-if _ _ (none_of d (request_schema d))
    where
      none_of :
          (d : Described F O) (schema : Option (List (String × O)))
          → (is_some (full_text d.display_name)
              || is_some schema
              || non_nil d.asset_types
              || is_some (only_true d.supports_retest))
            ≡ false
          → schema ≡ none
      none_of d none h = refl
      none_of d (some m) h = ground arith

module _ {S F O G : Type 0} where
  abbrev pub IsRaw : ScannerOption S F O G → Type 0
  IsRaw (with_raw_params_schema schema) = Unit
  IsRaw _ = ⊥

  apply_options-schema :
      (os : List (ScannerOption S F O G)) (s : Scanner S F O G)
      → All (λ o. ¬ (IsRaw o)) os
      → (apply_options os s).params_schema ≡ s.params_schema
  unfolding apply_options apply_option
  apply_options-schema [] s h = refl
  apply_options-schema (with_param p ∷ os) s h = apply_options-schema os _ h.1
  apply_options-schema (with_params ps ∷ os) s h = apply_options-schema os _ h.1
  apply_options-schema (with_raw_params_schema m ∷ os) s h = absurd (h.0 tt)
  apply_options-schema (with_display_name n ∷ os) s h = apply_options-schema os _ h.1
  apply_options-schema (with_retest_handler f ∷ os) s h = apply_options-schema os _ h.1

  -- For a scanner made by NewScanner with any options but a raw schema, parameters included, no
  -- schema of its parameters is sent to the server.
  pub new_scanner-schema :
      (structs : Structs F O) (name : String) (types : List String) (handler : ScanFunc S F O G)
      (os : List (ScannerOption S F O G))
      → All (λ o. ¬ (IsRaw o)) os
      → sent_schema structs
          (metadata_request structs (described (new_scanner name types handler os)))
        ≡ none
  unfolding new_scanner described request_schema
  new_scanner-schema structs name types handler os h =
      sent_schema-metadata_request structs _
      ∙ ap (λ m. bind m structs.of_map) (apply_options-schema os _ h)
