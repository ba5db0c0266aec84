-- ===== src/Intent/Loading/Built.antt =====
-- brain/intent/catalog.py: of what data a loaded catalog is built
use nubjuk_brain.Prelude.{◌≡◌, refl, ap, subst, String, Option, none, some, Text, [], ◌∷◌}
use nubjuk_brain.Json.{Json, null, bool, num, str, arr, obj}
use nubjuk_brain.Intent.Normalize.{Unicode}
use nubjuk_brain.Intent.Recipe.{
  IntentCatalogData, Checked, valid, invalid, ◌>>=◌, check_intents,
  validate_unique_intents_and_aliases,
}
use nubjuk_brain.Intent.Catalog.{IntentCatalog, build_catalog}
use nubjuk_brain.Intent.Recipe.Valid.{Unique, validate_iff}
use nubjuk_brain.Intent.Loading.{
  Source, Loading, loaded, value_error, json_error, from_checked, from_read, from_dict, from_json,
  from_file, from_text, from_path, from_default, load_intent_catalog,
}

-- A catalog that was built of data with unique ids and with unique aliases that are not empty.
pub record IsBuilt (u : Unicode) (d : IntentCatalogData) (c : IntentCatalog) : Type 0 where
  pub built : c ≡ build_catalog u d
  pub unique : Unique u [] [] d.intents

module _ (u : Unicode) (source : Source) where
  -- a loaded catalog is one of those
  abbrev Ensured : Loading → Type 0
  Ensured (loaded c) = (d : IntentCatalogData) × IsBuilt u d c
  Ensured (value_error text) = Unit
  Ensured json_error = Unit

  checked :
      (d : IntentCatalogData) (r : Checked (Unit {0}))
      → check_intents u d.intents [] [] ≡ r
      → Ensured (from_checked u (r >>= λ _. valid d))
  unfolding from_checked
  checked d (valid x) e =
      let accepted : validate_unique_intents_and_aliases u d ≡ valid d =
        unfold validate_unique_intents_and_aliases in ap (λ r. r >>= λ _. valid d) e in
      (d, record { built = refl; unique = (validate_iff u d).0 accepted })
  checked d (invalid x) e = tt

  read : (o : Option IntentCatalogData) → Ensured (from_read u o)
  unfolding from_read validate_unique_intents_and_aliases
  read none = tt
  read (some d) = checked d (check_intents u d.intents [] []) refl

  from_json-Ensured : (text : String) (j : Json) → Ensured (from_json u source text j)
  unfolding from_json from_dict
  from_json-Ensured text null = tt
  from_json-Ensured text (bool b) = tt
  from_json-Ensured text (num n) = tt
  from_json-Ensured text (str s) = tt
  from_json-Ensured text (arr items) = tt
  from_json-Ensured text (obj fields) = read (source.read_fields fields)

  from_file-Ensured : (o : Option Json) → Ensured (from_file u source o)
  unfolding from_file
  from_file-Ensured none = tt
  from_file-Ensured (some j) = from_json-Ensured _ j

  from_text-Ensured : (o : Option Text) → Ensured (from_text u source o)
  unfolding from_text
  from_text-Ensured none = tt
  from_text-Ensured (some text) = from_file-Ensured (source.loads text)

  from_default-Ensured : (o : Option Json) → Ensured (from_default u source o)
  unfolding from_default
  from_default-Ensured none = tt
  from_default-Ensured (some j) = from_json-Ensured _ j

  load-Ensured : (path : Option Text) → Ensured (load_intent_catalog u source path)
  unfolding load_intent_catalog from_path
  load-Ensured none = from_default-Ensured (source.loads source.default_catalog)
  load-Ensured (some []) = from_default-Ensured (source.loads source.default_catalog)
  load-Ensured (some (c ∷ path)) = from_text-Ensured (source.read_text (c ∷ path))

  -- Whatever is in the files, a catalog that is loaded, from a path or by default, is built of data in
  -- which no two recipes have the same id, no alias or ASR noise has an empty compact form, and no two
  -- have the same one.
  pub load_intent_catalog-IsBuilt :
      (path : Option Text) (c : IntentCatalog)
      → load_intent_catalog u source path ≡ loaded c
      → (d : IntentCatalogData) × IsBuilt u d c
  load_intent_catalog-IsBuilt path c e = subst Ensured e (load-Ensured path)
