-- ===== src/Intent/Pronunciation.antt =====
-- brain/intent/catalog.py: `candidates` and `pronunciation_candidates`
pub mod Ordered
pub mod Keyed
pub mod Ranking
use nubjuk_brain.Prelude.{
  ℕ, Bool, true, ◌&&◌, ◌||◌, Option, none, some, List, [], ◌∷◌, map, Text, length, take, ltb, ◌==◌,
  if◌then◌else◌,
}
use nubjuk_brain.Prelude.Dict
use nubjuk_brain.Prelude.Dict.{Dict}
use nubjuk_brain.Pipeline.{Float, Slots}
use nubjuk_brain.Intent.Normalize.{Unicode, compact}
use nubjuk_brain.Intent.Phonetic.{Floats, phonetic_similarity}
use nubjuk_brain.Intent.Sorting.{sort_desc}
use nubjuk_brain.Intent.Catalog.{PhoneticAlias, IntentCatalog}

pub record IntentCandidate : Type 0 where
  pub intent : Text
  pub aliases : List Text
  pub description : Text
  pub slots : Slots

-- `catalog.candidates`
unfoldable pub candidates : IntentCatalog → List IntentCandidate
candidates c =
    map
      (λ r. record {
        intent = r.id;
        aliases = r.aliases;
        description = r.description;
        slots = r.slots;
      })
      c.recipes

pub record PronunciationCandidate : Type 0 where
  pub intent : Text
  pub alias : Text
  pub score : Float

-- `(a.score, len(a.alias)) > (b.score, len(b.alias))`
unfoldable pub outranks : PronunciationCandidate → PronunciationCandidate → Bool
outranks a b = ltb b.score a.score || (a.score == b.score && ltb (length b.alias) (length a.alias))

unfoldable pub outranks_existing : PronunciationCandidate → Option PronunciationCandidate → Bool
outranks_existing a none = true
outranks_existing a (some b) = outranks a b

module _ (fl : Floats) where
  -- one round of the loop over the phonetic aliases
  unfoldable pub note_alias :
      Text → Float → PhoneticAlias → Dict PronunciationCandidate → Dict PronunciationCandidate
  note_alias text min_score a by_intent =
      let score = phonetic_similarity fl a.alias_compact text in
      let candidate : PronunciationCandidate = record {
        intent = a.recipe.id;
        alias = a.alias;
        score = fl.round_3 score;
      } in
      if ltb score min_score
      then by_intent
      else if outranks_existing candidate (Dict.get a.recipe.id by_intent)
      then Dict.put a.recipe.id candidate by_intent
      else by_intent

  unfoldable pub note_aliases :
      Text → Float → List PhoneticAlias → Dict PronunciationCandidate → Dict PronunciationCandidate
  note_aliases text min_score [] by_intent = by_intent
  note_aliases text min_score (a ∷ rest) by_intent =
      note_aliases text min_score rest (note_alias text min_score a by_intent)

  -- `catalog.pronunciation_candidates(text, min_score=…, limit=…)`
  unfoldable pub pronunciation_candidates :
      Unicode → IntentCatalog → Text → Float → ℕ → List PronunciationCandidate
  pronunciation_candidates u c text min_score limit =
      if length (compact u text) == 0
      then []
      else take limit (
          sort_desc outranks
            (Dict.values (note_aliases (compact u text) min_score c.phonetic_aliases [])))
