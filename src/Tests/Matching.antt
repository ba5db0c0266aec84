-- ===== src/Tests/Matching.antt =====
-- The catalog, its texts and its distances, on a catalog of one recipe.
use nubjuk_brain.Prelude.{
  ap, some, none, All, ◌≤◌, ◌≡◌, refl, inl, ◌↔◌, [], ◌∷◌, codes, length, filter_by, arith, text_eq,
}
use nubjuk_brain.Prelude.Dict
use nubjuk_brain.Intent.Normalize.{
  casefold, without_punctuation, collapse, lstrip, push_unless_blank, rstrip, normalize_text,
  compact,
}
use nubjuk_brain.Intent.Hangul.{is_hangul_syllable, hangul_syllables}
use nubjuk_brain.Intent.Distance.{levenshtein_distance}
use nubjuk_brain.Intent.Distance.Edits.{Edits, remove, keep, done}
use nubjuk_brain.Intent.Distance.Metric.{levenshtein_distance-Edits, levenshtein_distance_least}
use nubjuk_brain.Intent.Recipe.{
  valid, contains_text, check_alias, check_aliases, check_intents,
  validate_unique_intents_and_aliases,
}
use nubjuk_brain.Intent.Recipe.Valid.{Unique, validate_iff}
use nubjuk_brain.Intent.Catalog.{
  PhoneticAlias, IntentCatalog, best_phonetic, build_catalog, match_text, matched, partial_match,
}
use nubjuk_brain.Intent.Catalog.Exact.{match-alias}
use nubjuk_brain.Intent.Catalog.Partial.{IsLongest, partial_entries, partial_match-IsLongest}
use nubjuk_brain.Intent.Catalog.Highest.{IsAttained, IsPassed, best_phonetic-IsAttained}
use nubjuk_brain.Intent.Pronunciation.{pronunciation_candidates}
use nubjuk_brain.Intent.Pronunciation.Ordered.{IsRanked}
use nubjuk_brain.Intent.Pronunciation.Ranking.{IsSourced, pronunciation_candidates-IsRanked}
use nubjuk_brain.Json.{obj, end}
use nubjuk_brain.Intent.Loading.{
  Source, loaded, load_intent_catalog, from_default, from_json, from_dict, from_read, from_checked,
}
use nubjuk_brain.Tests.Fixtures.{demo_unicode, demo_floats, demo_recipe, demo_data, syllables}

-- a phonetic alias, and the catalog of it
abbrev spoken : PhoneticAlias
spoken = record { alias_compact = syllables; alias = syllables; recipe = demo_recipe }

abbrev demo_catalog : IntentCatalog
demo_catalog = record (build_catalog demo_unicode demo_data) { phonetic_aliases = spoken ∷ [] }

validate_iff_example :
    (validate_unique_intents_and_aliases demo_unicode demo_data ≡ valid demo_data)
    ↔ Unique demo_unicode [] [] demo_data.intents
validate_iff_example = validate_iff demo_unicode demo_data

pub accepted : validate_unique_intents_and_aliases demo_unicode demo_data ≡ valid demo_data
unfolding validate_unique_intents_and_aliases check_intents check_aliases check_alias contains_text
    compact normalize_text rstrip lstrip push_unless_blank collapse without_punctuation casefold
    is_hangul_syllable filter_by Dict.get Dict.put text_eq
accepted = refl

pub same : compact demo_unicode (codes "go!on") ≡ compact demo_unicode (codes "go on")
unfolding compact normalize_text rstrip lstrip push_unless_blank collapse without_punctuation
    casefold is_hangul_syllable filter_by
same = refl

match-alias_example :
    match_text demo_unicode demo_floats (build_catalog demo_unicode demo_data) (codes "go!on") 200
    ≡ matched demo_recipe 980
match-alias_example =
    match-alias demo_unicode demo_floats demo_data accepted demo_recipe (codes "go on")
      (codes "go!on") 200 (inl refl) (inl refl) same

partial_match-IsLongest_example :
    IsLongest
      (partial_entries demo_unicode demo_data)
      (codes "pleasestart")
      (partial_match (build_catalog demo_unicode demo_data).partial_aliases (codes "pleasestart"))
partial_match-IsLongest_example =
    partial_match-IsLongest demo_unicode demo_data (codes "pleasestart")

levenshtein_distance-Edits_example :
    Edits
      (codes "kitten")
      (codes "sitting")
      (levenshtein_distance (codes "kitten") (codes "sitting"))
levenshtein_distance-Edits_example = levenshtein_distance-Edits (codes "kitten") (codes "sitting")

levenshtein_distance_least_example : levenshtein_distance (codes "ab") (codes "b") ≤ 1
levenshtein_distance_least_example =
    levenshtein_distance_least (codes "ab") (codes "b") 1 (remove 97 (keep 98 done))

two_syllables : 2 ≤ length (hangul_syllables syllables)
unfolding hangul_syllables is_hangul_syllable filter_by
two_syllables = omega arith

best_phonetic-IsAttained_example :
    IsAttained demo_unicode demo_floats syllables
      (spoken ∷ [])
      (best_phonetic demo_unicode demo_floats (spoken ∷ []) syllables none)
    × IsPassed demo_unicode demo_floats syllables
        (best_phonetic demo_unicode demo_floats (spoken ∷ []) syllables none)
        spoken
best_phonetic-IsAttained_example =
    best_phonetic-IsAttained demo_unicode demo_floats syllables (spoken ∷ []) spoken (inl refl)

pronunciation_candidates-IsRanked_example :
    (length (pronunciation_candidates demo_floats demo_unicode demo_catalog syllables 500 5) ≤ 5)
    × IsRanked (pronunciation_candidates demo_floats demo_unicode demo_catalog syllables 500 5)
    × All
        (IsSourced demo_floats (compact demo_unicode syllables) 500 demo_catalog.phonetic_aliases)
        (pronunciation_candidates demo_floats demo_unicode demo_catalog syllables 500 5)
pronunciation_candidates-IsRanked_example =
    pronunciation_candidates-IsRanked demo_unicode demo_floats demo_catalog syllables 500 5

-- files with the catalog of one recipe
abbrev pub demo_source : Source
demo_source = record {
  read_text = λ path. none;
  default_catalog = codes "{}";
  loads = λ text. some (obj end);
  read_fields = λ fields. some demo_data;
}

pub demo_source_loaded :
    load_intent_catalog demo_unicode demo_source none
    ≡ loaded (build_catalog demo_unicode demo_data)
unfolding load_intent_catalog from_default from_json from_dict from_read from_checked
demo_source_loaded = ap (from_checked demo_unicode) accepted
