-- ===== src/Intent/Catalog.antt =====
-- brain/intent/catalog.py: `IntentCatalog`, its indexes and the stages of `match`
pub mod Indexed
pub mod Exact
pub mod Partial
pub mod Known
pub mod Highest
use nubjuk_brain.Prelude.{
  ℕ, Bool, true, false, ◌&&◌, ◌||◌, not, Option, none, some, List, [], ◌∷◌, ◌++◌, map, Text, codes,
  length, take, leb, ltb, ◌==◌, if◌then◌else◌,
}
use nubjuk_brain.Prelude.Dict
use nubjuk_brain.Prelude.Dict.{Dict}
use nubjuk_brain.Json.{end}
use nubjuk_brain.Pipeline.{Float, Slots}
use nubjuk_brain.Intent.Hangul.{hangul_syllable_count}
use nubjuk_brain.Intent.Normalize.{Unicode, compact}
use nubjuk_brain.Intent.Phonetic.{Floats, phonetic_similarity}
use nubjuk_brain.Intent.Recipe.{IntentRecipe, IntentCatalogData}
use nubjuk_brain.Intent.Sorting.{sort_desc}

abbrev pub unknown : Text
unknown = codes "unknown"

pub record IntentMatch : Type 0 where
  pub intent : Text
  pub confidence : Float
  pub slots : Slots

pub record PhoneticAlias : Type 0 where
  pub alias_compact : Text
  pub alias : Text
  pub recipe : IntentRecipe

pub record IntentCatalog : Type 0 where
  pub recipes : List IntentRecipe
  pub recipes_by_id : Dict IntentRecipe
  pub exact_aliases : Dict IntentRecipe
  pub exact_asr_noise : Dict IntentRecipe
  pub partial_aliases : List (Text × IntentRecipe)
  pub phonetic_aliases : List PhoneticAlias
  pub catalog_version : Text

-- `{recipe.id: recipe for recipe in recipes}`
unfoldable pub index_ids : List IntentRecipe → Dict IntentRecipe → Dict IntentRecipe
index_ids [] d = d
index_ids (r ∷ rs) d = index_ids rs (Dict.put r.id r d)

module _ (u : Unicode) where
  -- the body of the loop over a recipe's aliases
  unfoldable pub index_alias : IntentRecipe → Text → IntentCatalog → IntentCatalog
  index_alias r alias c =
      let alias_compact = compact u alias in
      record c {
        exact_aliases = Dict.put alias_compact r c.exact_aliases;
        partial_aliases = c.partial_aliases ++ (alias_compact, r) ∷ [];
        phonetic_aliases =
            if leb 2 (hangul_syllable_count alias_compact)
            then c.phonetic_aliases
              ++ record { alias_compact = alias_compact; alias = alias; recipe = r } ∷ []
            else c.phonetic_aliases;
      }

  unfoldable pub index_aliases : IntentRecipe → List Text → IntentCatalog → IntentCatalog
  index_aliases r [] c = c
  index_aliases r (alias ∷ rest) c = index_aliases r rest (index_alias r alias c)

  unfoldable pub index_noise : IntentRecipe → List Text → IntentCatalog → IntentCatalog
  index_noise r [] c = c
  index_noise r (noise ∷ rest) c =
      index_noise r rest
        (record c { exact_asr_noise = Dict.put (compact u noise) r c.exact_asr_noise })

  unfoldable pub index_recipes : List IntentRecipe → IntentCatalog → IntentCatalog
  index_recipes [] c = c
  index_recipes (r ∷ rs) c =
      index_recipes rs (index_noise r r.asr_noise (index_aliases r r.aliases c))

  -- the dictionaries and lists before the loop
  unfoldable pub blank_catalog : IntentCatalogData → IntentCatalog
  blank_catalog d = record {
    recipes = d.intents;
    recipes_by_id = index_ids d.intents [];
    exact_aliases = [];
    exact_asr_noise = [];
    partial_aliases = [];
    phonetic_aliases = [];
    catalog_version = d.catalog_version;
  }

  -- `IntentCatalog(data)`
  unfoldable pub build_catalog : IntentCatalogData → IntentCatalog
  build_catalog d =
      let c = index_recipes d.intents (blank_catalog d) in
      record c {
        partial_aliases = sort_desc (λ a b. ltb (length b.0) (length a.0)) c.partial_aliases;
        phonetic_aliases =
            sort_desc
              (λ a b.
                ltb (hangul_syllable_count b.alias_compact) (hangul_syllable_count a.alias_compact))
              c.phonetic_aliases;
      }

unfoldable pub intent_ids : IntentCatalog → List Text
intent_ids c = map (λ r. r.id) c.recipes

-- `text.startswith(sub)` and `sub in text`
unfoldable pub starts_with : Text → Text → Bool
starts_with [] text = true
starts_with (c ∷ sub) [] = false
starts_with (c ∷ sub) (d ∷ text) = c == d && starts_with sub text

unfoldable pub occurs_in : Text → Text → Bool
occurs_in sub [] = starts_with sub []
occurs_in sub (d ∷ text) = starts_with sub (d ∷ text) || occurs_in sub text

unfoldable pub partial_match : List (Text × IntentRecipe) → Text → Option IntentRecipe
partial_match [] text = none
partial_match ((alias_compact, r) ∷ rest) text =
    if occurs_in alias_compact text then some r else partial_match rest text

abbrev pub matched : IntentRecipe → Float → IntentMatch
matched r confidence = record { intent = r.id; confidence = confidence; slots = r.slots }

abbrev pub no_match : Float → IntentMatch
no_match confidence = record { intent = unknown; confidence = confidence; slots = end }

-- the best candidate so far: its score, its count of syllables and its recipe
abbrev pub Best : Type 0
Best = Option (Float × ℕ × IntentRecipe)

-- `candidate[:2] > best[:2]`
unfoldable pub beats : Float → ℕ → Best → Bool
beats score count none = true
beats score count (some (s, n, _)) = ltb s score || (s == score && ltb n count)

module _ (u : Unicode) (fl : Floats) where
  unfoldable pub best_phonetic : List PhoneticAlias → Text → Best → Best
  best_phonetic [] text best = best
  best_phonetic (a ∷ rest) text best =
      let score = phonetic_similarity fl a.alias_compact text in
      let count = hangul_syllable_count a.alias_compact in
      best_phonetic rest text (
        if ltb score fl.match_floor
        then best
        else if beats score count best
        then some (score, count, a.recipe)
        else best)

  unfoldable pub match_phonetic : IntentCatalog → Text → Option IntentMatch
  match_phonetic c text = elim (best_phonetic c.phonetic_aliases text none) [
    | none ↦ none
    | some (_, _, r) ↦ some (matched r r.phonetic_confidence)
  ]

  -- the stages behind the two dictionaries
  unfoldable pub match_loosely : IntentCatalog → Text → Float → IntentMatch
  match_loosely c text unknown_confidence = elim (partial_match c.partial_aliases text) [
    | some r ↦ matched r r.confidence
    | none ↦ elim (match_phonetic c text) [ some m ↦ m | none ↦ no_match unknown_confidence ]
  ]

  unfoldable pub match_compact : IntentCatalog → Text → Float → IntentMatch
  match_compact c text unknown_confidence =
      if length text == 0
      then no_match unknown_confidence
      else elim (Dict.get text c.exact_aliases) [
        | some exact ↦ matched exact exact.exact_confidence
        | none ↦ elim (Dict.get text c.exact_asr_noise) [
          | some noise ↦ matched noise noise.confidence
          | none ↦ match_loosely c text unknown_confidence
        ]
      ]

  -- `catalog.match(text, unknown_confidence=…)`
  unfoldable pub match_text : IntentCatalog → Text → Float → IntentMatch
  match_text c text unknown_confidence = match_compact c (compact u text) unknown_confidence

-- `catalog.match_intent_id(intent, confidence=…)`
unfoldable pub match_intent_id : IntentCatalog → Text → Float → Option IntentMatch
match_intent_id c intent confidence = elim (Dict.get intent c.recipes_by_id) [
  | none ↦ none
  | some r ↦ some (matched r confidence)
]
