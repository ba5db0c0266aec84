-- ===== src/Intent/Recipe.antt =====
-- brain/intent/catalog.py: `IntentRecipe`, `IntentCatalogData` and its validator
pub mod Valid
use nubjuk_brain.Prelude.{
  ℕ, ◌≡◌, Bool, Option, none, some, List, [], ◌∷◌, ◌++◌, Text, text_eq, length, ◌==◌, if◌then◌else◌,
}
use nubjuk_brain.Prelude.Dict
use nubjuk_brain.Prelude.Dict.{Dict}
use nubjuk_brain.Pipeline.{Float, Slots}
use nubjuk_brain.Intent.Normalize.{Unicode, compact}

pub record IntentRecipe : Type 0 where
  pub id : Text
  pub aliases : List Text
  pub asr_noise : List Text
  pub description : Text
  pub slots : Slots
  pub confidence : Float
  pub exact_confidence : Float
  pub phonetic_confidence : Float

pub record IntentCatalogData : Type 0 where
  pub catalog_version : Text
  pub intents : List IntentRecipe

-- The `ValueError`s of the validator, with the texts that they quote.
pub data CatalogError : Type 0 where
  duplicate_intent_id : Text → CatalogError
  empty_alias : Text → CatalogError
  duplicate_alias : Text → Text → Text → CatalogError

pub data Checked (A : Type 0) : Type 0 where
  valid : A → Checked A
  invalid : CatalogError → Checked A

infixl 5 ◌>>=◌
abbrev pub ◌>>=◌ : {A B : Type 0} → Checked A → (A → Checked B) → Checked B
valid a >>= f = f a
invalid e >>= f = invalid e

-- `x in seen` of a set, kept as a list
unfoldable pub contains_text : List Text → Text → Bool
contains_text [] x = Bool.false
contains_text (y ∷ ys) x = let rest = contains_text ys x in if text_eq y x then Bool.true else rest

module _ (u : Unicode) where
  -- the body of the inner loop
  unfoldable pub check_alias : Text → Text → Dict Text → Checked (Dict Text)
  check_alias id alias seen =
      let normalized = compact u alias in
      if length normalized == 0 then invalid (empty_alias id) else elim (Dict.get normalized seen) [
        | some existing ↦ invalid (duplicate_alias alias existing id)
        | none ↦ valid (Dict.put normalized id seen)
      ]

  unfoldable pub check_aliases : Text → List Text → Dict Text → Checked (Dict Text)
  check_aliases id [] seen = valid seen
  check_aliases id (alias ∷ rest) seen = check_alias id alias seen >>= check_aliases id rest

  -- the outer loop
  unfoldable pub check_intents : List IntentRecipe → List Text → Dict Text → Checked (Unit {0})
  check_intents [] seen_ids seen_aliases = valid tt
  check_intents (intent ∷ rest) seen_ids seen_aliases =
      let go =
        check_aliases intent.id (intent.aliases ++ intent.asr_noise) seen_aliases
        >>= check_intents rest (intent.id ∷ seen_ids) in
      if contains_text seen_ids intent.id then invalid (duplicate_intent_id intent.id) else go

  unfoldable pub validate_unique_intents_and_aliases : IntentCatalogData → Checked IntentCatalogData
  validate_unique_intents_and_aliases d = check_intents d.intents [] [] >>= λ _. valid d
