-- ===== src/Intent/Catalog/Exact.antt =====
-- brain/intent/catalog.py: the two dictionaries of `match`
use nubjuk_brain.Prelude.{
  ◌≡◌, ◌≢◌, refl, sym, ◌∙◌, ap, inl, inr, false, none, some, List, [], ◌∷◌, Text, length, ◌==◌,
  arith, All, Elem,
}
use nubjuk_brain.Prelude.Dict
use nubjuk_brain.Pipeline.{Float}
use nubjuk_brain.Intent.Normalize.{Unicode, compact}
use nubjuk_brain.Intent.Phonetic.{Floats}
use nubjuk_brain.Intent.Recipe.{
  IntentRecipe, IntentCatalogData, valid, validate_unique_intents_and_aliases,
}
use nubjuk_brain.Intent.Recipe.Valid.{NonEmpty, all_keys, validate_iff}
use nubjuk_brain.Intent.Catalog.{
  IntentCatalog, build_catalog, blank_catalog, match_text, match_compact, matched,
}
use nubjuk_brain.Intent.Catalog.Indexed.{
  recipes_found, recipes_noise_found, recipes_other, noise_not_alias, Elem-all_keys, Elem-alias,
  Elem-noise, Elem-map,
}

nonempty_key : (k : Text) (ks : List Text) → All NonEmpty ks → Elem k ks → k ≢ []
nonempty_key k [] h m = absurd m
nonempty_key k (x ∷ ks) h (inl e) = λ n. h.0 (sym e ∙ n)
nonempty_key k (x ∷ ks) h (inr m) = nonempty_key k ks h.1 m

not_empty : (k : Text) → k ≢ [] → (length k == 0) ≡ false
not_empty [] h = absurd (h refl)
not_empty (c ∷ k) h = ground arith

match_compact-noise :
    (u : Unicode) (fl : Floats) (c : IntentCatalog) (k : Text) (r : IntentRecipe)
    (unknown_confidence : Float)
    → (length k == 0) ≡ false
    → Dict.get k c.exact_aliases ≡ none
    → Dict.get k c.exact_asr_noise ≡ some r
    → match_compact u fl c k unknown_confidence ≡ matched r r.confidence
unfolding match_compact
match_compact-noise u fl c k r unknown_confidence full absent found = ground arith

module _ (u : Unicode) (fl : Floats) (d : IntentCatalogData) where
  -- In a catalog that the validator accepts, a text with the compact form of an alias is matched
  -- with the recipe of the alias, at its `exact_confidence` and with its slots.
  pub match-alias :
      validate_unique_intents_and_aliases u d ≡ valid d
      → (r : IntentRecipe) (a text : Text) (unknown_confidence : Float) → Elem r d.intents
      → Elem a r.aliases
      → compact u text ≡ compact u a
      → match_text u fl (build_catalog u d) text unknown_confidence ≡ matched r r.exact_confidence
  unfolding match_text match_compact build_catalog
  match-alias accepted r a text unknown_confidence m n same =
      let unique = (validate_iff u d).0 accepted in
      let key =
        Elem-all_keys u r (compact u a) d.intents m
          (Elem-alias u r (compact u a) (Elem-map (compact u) a r.aliases n)) in
      let found = recipes_found u r a [] d.intents (blank_catalog u d) unique.2 m n in
      rw (
        same,
        not_empty (compact u a) (nonempty_key (compact u a) (all_keys u d.intents) unique.1 key),
        found,
      )

  -- In a catalog that the validator accepts, a text with the compact form of an ASR noise is
  -- matched with the recipe of the noise, at its `confidence` and with its slots.
  pub match-asr_noise :
      validate_unique_intents_and_aliases u d ≡ valid d
      → (r : IntentRecipe) (a text : Text) (unknown_confidence : Float) → Elem r d.intents
      → Elem a r.asr_noise
      → compact u text ≡ compact u a
      → match_text u fl (build_catalog u d) text unknown_confidence ≡ matched r r.confidence
  unfolding match_text
  match-asr_noise accepted r a text unknown_confidence m n same =
      let unique = (validate_iff u d).0 accepted in
      let key =
        Elem-all_keys u r (compact u a) d.intents m
          (Elem-noise u r (compact u a) (Elem-map (compact u) a r.asr_noise n)) in
      let other =
        recipes_other u (compact u a) d.intents (blank_catalog u d)
          (noise_not_alias u r a [] d.intents unique.2 m n) in
      let found = recipes_noise_found u r a [] d.intents (blank_catalog u d) unique.2 m n in
      let full =
        not_empty (compact u a) (nonempty_key (compact u a) (all_keys u d.intents) unique.1 key) in
      ap (λ k. match_compact u fl (build_catalog u d) k unknown_confidence) same
      ∙ match_compact-noise u fl (build_catalog u d) (compact u a) r unknown_confidence full
          (unfold build_catalog in other ∙ (unfold blank_catalog Dict.get in refl))
          (unfold build_catalog in found)
