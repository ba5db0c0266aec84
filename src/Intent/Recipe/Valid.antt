-- ===== src/Intent/Recipe/Valid.antt =====
-- brain/intent/catalog.py: which catalogs the validator accepts
use mathlib.Core.List.{reverse_aux}
use nubjuk_brain.Prelude.{
  ◌≡◌, ◌≢◌, refl, sym, ◌∙◌, ◌↔◌, ◌⊎◌, inl, inr, true, none, List, [], ◌∷◌, ◌++◌, map, Text, text_eq,
  text_eq_iff, length, ◌==◌, arith, All, Elem, Bool-cases, Option-cases,
}
use nubjuk_brain.Prelude.Dict
use nubjuk_brain.Prelude.Dict.{Dict, get-put}
use nubjuk_brain.Intent.Normalize.{Unicode, compact}
use nubjuk_brain.Intent.Recipe.{
  IntentRecipe, IntentCatalogData, valid, invalid, CatalogError, empty_alias, duplicate_alias,
  duplicate_intent_id, contains_text, check_alias, check_aliases, check_intents,
  validate_unique_intents_and_aliases,
}

-- No text of the list is among `seen` or equal to an earlier one.
abbrev pub IsFresh : List Text → List Text → Type 0
IsFresh seen [] = Unit
IsFresh seen (x ∷ xs) = (¬ Elem x seen) × IsFresh (x ∷ seen) xs

abbrev pub NonEmpty : Text → Type 0
NonEmpty t = t ≢ []

abbrev pub ids : List IntentRecipe → List Text
ids = map (λ r. r.id)

-- The compact forms of a recipe's aliases and ASR noise, and of all recipes'.
abbrev pub recipe_keys : Unicode → IntentRecipe → List Text
recipe_keys u r = map (compact u) (r.aliases ++ r.asr_noise)

abbrev pub all_keys : Unicode → List IntentRecipe → List Text
all_keys u [] = []
all_keys u (r ∷ rs) = recipe_keys u r ++ all_keys u rs

-- The dictionary has an entry for each of the texts and for no other.
abbrev Records : List Text → Dict Text → Type 0
Records ks seen = (k : Text) → (Dict.get k seen ≡ none) ↔ (¬ Elem k ks)

nothing : Records [] []
unfolding Dict.get
nothing k = (λ _ m. m, λ _. refl)

Records-put :
    (ks : List Text) (k v : Text) (seen : Dict Text)
    → Records ks seen
    → Records (k ∷ ks) (Dict.put k v seen)
Records-put ks k v seen h j = elim (Bool-cases (text_eq k j)) [
  | inl e ↦
      let same : k ≡ j = (text_eq_iff k j).0 e in
      (λ p. absurd (cc (get-put k j v seen, e, p)), λ p. absurd (p (inl (sym same))))
  | inr e ↦
      let kept : Dict.get j (Dict.put k v seen) ≡ Dict.get j seen = get-put k j v seen ∙ rw e in
      (
        λ p. λ q. elim q [
          | inl same ↦ absurd (cc (sym e ∙ (text_eq_iff k j).1 (sym same)))
          | inr m ↦ (h j).0 (sym kept ∙ p) m
        ],
        λ p. kept ∙ (h j).1 (λ m. p (inr m)),
      )
]

contains_text_iff : (ys : List Text) (x : Text) → (contains_text ys x ≡ true) ↔ Elem x ys
unfolding contains_text
contains_text_iff [] x = (λ e. absurd (ground arith), λ m. absurd m)
contains_text_iff (y ∷ ys) x = elim (Bool-cases (text_eq y x)) [
  | inl e ↦ rw e (λ _. inl (sym ((text_eq_iff y x).0 e)), λ _. refl)
  | inr e ↦ rw e (
    λ p. inr ((contains_text_iff ys x).0 p),
    λ m. elim m [
      | inl same ↦ absurd (cc (sym e ∙ (text_eq_iff y x).1 (sym same)))
      | inr later ↦ (contains_text_iff ys x).1 later
    ],
  )
]

length_zero : (t : Text) → ((length t == 0) ≡ true) ↔ (t ≡ [])
length_zero [] = (λ _. refl, λ _. refl)
length_zero (c ∷ t) = (λ e. absurd (ground arith), λ e. absurd (cc e))

module _ (u : Unicode) where
  -- The answer of one round of the inner loop, either way.
  check_alias-answer :
      (id alias : Text) (ks : List Text) (seen : Dict Text)
      → Records ks seen
      → ((seen' : Dict Text) × (check_alias u id alias seen ≡ valid seen')
          × Records (compact u alias ∷ ks) seen'
          × NonEmpty (compact u alias)
          × (¬ Elem (compact u alias) ks))
        ⊎ ((e : CatalogError) × (check_alias u id alias seen ≡ invalid e)
            × (¬ (NonEmpty (compact u alias) × (¬ Elem (compact u alias) ks))))
  unfolding check_alias
  check_alias-answer id alias ks seen h =
      let k = compact u alias in
      elim (Bool-cases (length k == 0)) [
        | inl e ↦ inr (empty_alias id, rw e, λ p. p.0 ((length_zero k).0 e))
        | inr e ↦ elim (Option-cases (Dict.get k seen)) [
          | inl new ↦ inl (
            Dict.put k id seen,
            ground arith,
            Records-put ks k id seen h,
            λ p. absurd (cc (sym e ∙ (length_zero k).1 p)),
            (h k).0 new,
          )
          | inr (existing, found) ↦ inr (
            duplicate_alias alias existing id,
            ground arith,
            λ p. absurd (cc (sym found ∙ (h k).1 p.1)),
          )
        ]
      ]

  check_aliases-answer :
      (id : Text) (texts : List Text) (ks : List Text) (seen : Dict Text)
      → Records ks seen
      → ((seen' : Dict Text) × (check_aliases u id texts seen ≡ valid seen')
          × Records (reverse_aux (map (compact u) texts) ks) seen'
          × All NonEmpty (map (compact u) texts)
          × IsFresh ks (map (compact u) texts))
        ⊎ ((e : CatalogError) × (check_aliases u id texts seen ≡ invalid e)
            × (¬ (All NonEmpty (map (compact u) texts) × IsFresh ks (map (compact u) texts))))
  unfolding check_aliases reverse_aux
  check_aliases-answer id [] ks seen h = inl (seen, refl, h, tt, tt)
  check_aliases-answer id (a ∷ texts) ks seen h = elim (check_alias-answer id a ks seen h) [
    | inr (e, stop, bad) ↦ inr (e, rw stop, λ p. bad (p.0.0, p.1.0))
    | inl (seen₁, next, h₁, full, new) ↦
        elim (check_aliases-answer id texts (compact u a ∷ ks) seen₁ h₁) [
          | inr (e, stop, bad) ↦ inr (e, rw next stop, λ p. bad (p.0.1, p.1.1))
          | inl (seen₂, done, h₂, all, fresh) ↦
              inl (seen₂, rw next done, h₂, (full, all), (new, fresh))
        ]
  ]

  IsFresh-append :
      (seen xs ys : List Text)
      → IsFresh seen (xs ++ ys) ↔ (IsFresh seen xs × IsFresh (reverse_aux xs seen) ys)
  unfolding reverse_aux
  IsFresh-append seen [] ys = (λ p. (tt, p), λ p. p.1)
  IsFresh-append seen (x ∷ xs) ys =
      let rest = IsFresh-append (x ∷ seen) xs ys in
      (λ p. ((p.0, (rest.0 p.1).0), (rest.0 p.1).1), λ p. (p.0.0, rest.1 (p.0.1, p.1)))

  All-append : (xs ys : List Text) → All NonEmpty (xs ++ ys) ↔ (All NonEmpty xs × All NonEmpty ys)
  All-append [] ys = (λ p. (tt, p), λ p. p.1)
  All-append (x ∷ xs) ys =
      let rest = All-append xs ys in
      (λ p. ((p.0, (rest.0 p.1).0), (rest.0 p.1).1), λ p. (p.0.0, rest.1 (p.0.1, p.1)))

  -- What the validator demands of the recipes, behind those that it has seen.
  abbrev pub Unique : List Text → List Text → List IntentRecipe → Type 0
  Unique seen_ids seen_keys rs =
      IsFresh seen_ids (ids rs) × All NonEmpty (all_keys u rs) × IsFresh seen_keys (all_keys u rs)

  check_intents-answer :
      (rs : List IntentRecipe) (seen_ids ks : List Text) (seen : Dict Text)
      → Records ks seen
      → ((check_intents u rs seen_ids seen ≡ valid tt) × Unique seen_ids ks rs)
        ⊎ ((e : CatalogError) × (check_intents u rs seen_ids seen ≡ invalid e)
            × (¬ Unique seen_ids ks rs))
  unfolding check_intents
  check_intents-answer [] seen_ids ks seen h = inl (refl, (tt, tt, tt))
  check_intents-answer (r ∷ rs) seen_ids ks seen h =
      elim (Bool-cases (contains_text seen_ids r.id)) [
        | inl e ↦
            inr (duplicate_intent_id r.id, rw e, λ p. p.0.0 ((contains_text_iff seen_ids r.id).0 e))
        | inr e ↦
            let id_new : ¬ Elem r.id seen_ids =
              λ m. absurd (cc (sym e ∙ (contains_text_iff seen_ids r.id).1 m)) in
            elim (check_aliases-answer r.id (r.aliases ++ r.asr_noise) ks seen h) [
              | inr (x, stop, bad) ↦ inr (
                x,
                rw (e, stop),
                λ p. bad (
                  ((All-append (recipe_keys u r) (all_keys u rs)).0 p.1).0,
                  ((IsFresh-append ks (recipe_keys u r) (all_keys u rs)).0 p.2).0,
                ),
              )
              | inl (seen₁, next, h₁, full, fresh) ↦
                  elim (check_intents-answer rs (r.id ∷ seen_ids) (reverse_aux (recipe_keys u r) ks)
                    seen₁ h₁) [
                      | inr (x, stop, bad) ↦ inr (
                        x,
                        rw (e, next) stop,
                        λ p. bad (
                          p.0.1,
                          ((All-append (recipe_keys u r) (all_keys u rs)).0 p.1).1,
                          ((IsFresh-append ks (recipe_keys u r) (all_keys u rs)).0 p.2).1,
                        ),
                      )
                      | inl (done, rest) ↦ inl (
                        rw (e, next) done,
                        (
                          (id_new, rest.0),
                          (All-append (recipe_keys u r) (all_keys u rs)).1 (full, rest.1),
                          (IsFresh-append ks (recipe_keys u r) (all_keys u rs)).1 (fresh, rest.2),
                        ),
                      )
                    ]
            ]
      ]

  -- The validator accepts a catalog exactly if no id occurs twice, and the compact forms of all
  -- aliases and ASR noise, over all recipes, are not empty and do not occur twice.
  pub validate_iff :
      (d : IntentCatalogData)
      → (validate_unique_intents_and_aliases u d ≡ valid d) ↔ Unique [] [] d.intents
  unfolding validate_unique_intents_and_aliases
  validate_iff d = elim (check_intents-answer d.intents [] [] [] nothing) [
    | inl (done, unique) ↦ (λ _. unique, λ _. rw done)
    | inr (e, stop, bad) ↦ (λ p. absurd (cc (stop, p)), λ p. absurd (bad p))
  ]
