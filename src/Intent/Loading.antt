-- ===== src/Intent/Loading.antt =====
-- brain/intent/catalog.py: `load_intent_catalog`, `from_path` and `from_dict`. Files, `json.loads` and
-- the field checks of pydantic are parameters.
pub mod Built
use nubjuk_brain.Prelude.{ℕ, Bool, String, Option, none, some, Text, [], ◌∷◌}
use nubjuk_brain.Json.{Json, obj, Fields}
use nubjuk_brain.Intent.Normalize.{Unicode}
use nubjuk_brain.Intent.Recipe.{
  IntentCatalogData, Checked, valid, invalid, validate_unique_intents_and_aliases,
}
use nubjuk_brain.Intent.Catalog.{IntentCatalog, build_catalog}

-- `Path(path).read_text`, none where it raises `OSError`; the text of the default catalog; `json.loads`,
-- none where it raises; and the data that pydantic reads from a dict before the validator runs, none
-- where a field does not conform.
pub record Source : Type 0 where
  pub read_text : Text → Option Text
  pub default_catalog : Text
  pub loads : Text → Option Json
  pub read_fields : Fields → Option IntentCatalogData

-- a catalog, or an exception
pub data Loading : Type 0 where
  loaded : IntentCatalog → Loading
  value_error : String → Loading
  json_error : Loading

module _ (u : Unicode) where
  unfoldable pub from_checked : Checked IntentCatalogData → Loading
  from_checked (valid d) = loaded (build_catalog u d)
  from_checked (invalid e) = value_error "invalid intent catalog"

  unfoldable pub from_read : Option IntentCatalogData → Loading
  from_read none = value_error "invalid intent catalog"
  from_read (some d) = from_checked (validate_unique_intents_and_aliases u d)

  -- `IntentCatalog.from_dict(data)`
  unfoldable pub from_dict : Source → Fields → Loading
  from_dict source fields = from_read (source.read_fields fields)

  -- behind the test that the JSON is a dict, with the text of the error
  unfoldable pub from_json : Source → String → Json → Loading
  from_json source text (obj fields) = from_dict source fields
  from_json source text _ = value_error text

  unfoldable pub from_file : Source → Option Json → Loading
  from_file source none = value_error "invalid intent catalog JSON"
  from_file source (some json) = from_json source "intent catalog must be a JSON object" json

  unfoldable pub from_text : Source → Option Text → Loading
  from_text source none = value_error "cannot read intent catalog"
  from_text source (some text) = from_file source (source.loads text)

  -- `IntentCatalog.from_path(path)`
  unfoldable pub from_path : Source → Text → Loading
  from_path source path = from_text source (source.read_text path)

  -- the catalog of the package, whose JSON is read outside of a `try`
  unfoldable pub from_default : Source → Option Json → Loading
  from_default source none = json_error
  from_default source (some json) =
      from_json source "default intent catalog must be a JSON object" json

  unfoldable pub load_intent_catalog : Source → Option Text → Loading
  load_intent_catalog source (some (c ∷ path)) = from_path source (c ∷ path)
  load_intent_catalog source _ = from_default source (source.loads source.default_catalog)
