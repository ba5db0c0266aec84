-- ===== src/Intent/Catalog/Known.antt =====
-- brain/intent/catalog.py: where the recipe of a match comes from
use nubjuk_brain.Prelude.{
  ℕ, ◌≡◌, refl, subst, ◌⊎◌, inl, inr, Bool, Option, none, some, List, [], ◌∷◌, ◌++◌, Text, text_eq,
  Elem, All, length, leb, ltb, ◌==◌, Bool-cases, Option-cases, if-intro, if◌then◌else◌,
}
use nubjuk_brain.Prelude.Dict
use nubjuk_brain.Prelude.Dict.{Dict}
use nubjuk_brain.Pipeline.{Float}
use nubjuk_brain.Intent.Normalize.{Unicode, compact}
use nubjuk_brain.Intent.Phonetic.{Floats}
use nubjuk_brain.Intent.Hangul.{hangul_syllable_count}
use nubjuk_brain.Intent.Sorting.{insert_desc, sort_desc}
use nubjuk_brain.Intent.Recipe.{IntentRecipe, IntentCatalogData}
use nubjuk_brain.Intent.Catalog.{
  IntentMatch, PhoneticAlias, IntentCatalog, index_alias, index_aliases, index_noise, index_recipes,
  blank_catalog, build_catalog, occurs_in, partial_match, matched, no_match, Best, beats,
  best_phonetic, match_phonetic, match_loosely, match_compact, match_text,
}

All-put :
    {V : Type 0} (Q : V → Type 0) (k : Text) (v : V) (d : Dict V)
    → Q v
    → All (λ (e : Text × V). Q e.1) d
    → All (λ (e : Text × V). Q e.1) (Dict.put k v d)
unfolding Dict.put
All-put Q k v [] q h = (q, tt)
All-put Q k v ((j, w) ∷ d) q h = elim (Bool-cases (text_eq j k)) [
  | inl e ↦ rw e (q, h.1)
  | inr e ↦ rw e (h.0, All-put Q k v d q h.1)
]

-- an answer, if there is one, has the property
abbrev Maybe : {V : Type 0} → (V → Type 0) → Option V → Type 0
Maybe Q none = Unit
Maybe Q (some v) = Q v

get-Maybe :
    {V : Type 0} (Q : V → Type 0) (k : Text) (d : Dict V)
    → All (λ (e : Text × V). Q e.1) d
    → Maybe Q (Dict.get k d)
unfolding Dict.get
get-Maybe Q k [] h = tt
get-Maybe Q k ((j, w) ∷ d) h = elim (Bool-cases (text_eq j k)) [
  | inl e ↦ rw e (h.0)
  | inr e ↦ rw e (get-Maybe Q k d h.1)
]

All-snoc :
    {A : Type 0} (Q : A → Type 0) (x : A) (xs : List A) → All Q xs → Q x → All Q (xs ++ x ∷ [])
All-snoc Q x [] h q = (q, tt)
All-snoc Q x (y ∷ ys) h q = (h.0, All-snoc Q x ys h.1 q)

module _ {A : Type 0} (before : A → A → Bool) (Q : A → Type 0) where
  All-insert_desc : (x : A) (xs : List A) → Q x → All Q xs → All Q (insert_desc before x xs)
  unfolding insert_desc
  All-insert_desc x [] q h = (q, tt)
  All-insert_desc x (y ∷ ys) q h = elim (Bool-cases (before y x)) [
    | inl e ↦ rw e (h.0, All-insert_desc x ys q h.1)
    | inr e ↦ rw e (q, h)
  ]

  All-sort_desc : (xs : List A) → All Q xs → All Q (sort_desc before xs)
  unfolding sort_desc
  All-sort_desc [] h = tt
  All-sort_desc (x ∷ xs) h = All-insert_desc x (sort_desc before xs) h.0 (All-sort_desc xs h.1)

-- every recipe that the indexes lead to has the property
record Leads (Q : IntentRecipe → Type 0) (c : IntentCatalog) : Type 0 where
  pub exact : All (λ (e : Text × IntentRecipe). Q e.1) c.exact_aliases
  pub noise : All (λ (e : Text × IntentRecipe). Q e.1) c.exact_asr_noise
  pub partial : All (λ (e : Text × IntentRecipe). Q e.1) c.partial_aliases
  pub phonetic : All (λ (a : PhoneticAlias). Q a.recipe) c.phonetic_aliases

module _ (u : Unicode) (fl : Floats) (Q : IntentRecipe → Type 0) where
  Leads-index_alias :
      (r : IntentRecipe) (a : Text) (c : IntentCatalog)
      → Q r
      → Leads Q c
      → Leads Q (index_alias u r a c)
  unfolding index_alias
  Leads-index_alias r a c q h = record {
    exact = All-put Q (compact u a) r c.exact_aliases q h.exact;
    noise = h.noise;
    partial =
        All-snoc (λ (e : Text × IntentRecipe). Q e.1) (compact u a, r) c.partial_aliases h.partial
          q;
    phonetic =
        if-intro (All (λ (x : PhoneticAlias). Q x.recipe))
          (leb 2 (hangul_syllable_count (compact u a)))
          {x = c.phonetic_aliases
            ++ record { alias_compact = compact u a; alias = a; recipe = r } ∷ []}
          {y = c.phonetic_aliases}
          (λ _. All-snoc (λ (x : PhoneticAlias). Q x.recipe) _ c.phonetic_aliases h.phonetic q)
          (λ _. h.phonetic);
  }

  Leads-index_aliases :
      (r : IntentRecipe) (aliases : List Text) (c : IntentCatalog)
      → Q r
      → Leads Q c
      → Leads Q (index_aliases u r aliases c)
  unfolding index_aliases
  Leads-index_aliases r [] c q h = h
  Leads-index_aliases r (a ∷ rest) c q h =
      Leads-index_aliases r rest (index_alias u r a c) q (Leads-index_alias r a c q h)

  Leads-index_noise :
      (r : IntentRecipe) (ns : List Text) (c : IntentCatalog)
      → Q r
      → Leads Q c
      → Leads Q (index_noise u r ns c)
  unfolding index_noise
  Leads-index_noise r [] c q h = h
  Leads-index_noise r (n ∷ rest) c q h = Leads-index_noise r rest _ q (record {
    exact = h.exact;
    noise = All-put Q (compact u n) r c.exact_asr_noise q h.noise;
    partial = h.partial;
    phonetic = h.phonetic;
  })

  Leads-index_recipes :
      (rs : List IntentRecipe) (c : IntentCatalog)
      → All Q rs
      → Leads Q c
      → Leads Q (index_recipes u rs c)
  unfolding index_recipes
  Leads-index_recipes [] c q h = h
  Leads-index_recipes (r ∷ rs) c q h =
      Leads-index_recipes rs _ q.1
        (Leads-index_noise r r.asr_noise _ q.0 (Leads-index_aliases r r.aliases c q.0 h))

  Leads-build_catalog : (d : IntentCatalogData) → All Q d.intents → Leads Q (build_catalog u d)
  unfolding build_catalog blank_catalog
  Leads-build_catalog d q =
      let h : Leads Q (index_recipes u d.intents (blank_catalog u d)) =
        Leads-index_recipes d.intents (blank_catalog u d) q
          (record { exact = tt; noise = tt; partial = tt; phonetic = tt }) in
      record {
        exact = h.exact;
        noise = h.noise;
        partial = All-sort_desc _ (λ (e : Text × IntentRecipe). Q e.1) _ h.partial;
        phonetic = All-sort_desc _ (λ (a : PhoneticAlias). Q a.recipe) _ h.phonetic;
      }

  partial_match-Maybe :
      (es : List (Text × IntentRecipe)) (text : Text)
      → All (λ (e : Text × IntentRecipe). Q e.1) es
      → Maybe Q (partial_match es text)
  unfolding partial_match
  partial_match-Maybe [] text h = tt
  partial_match-Maybe ((a, r) ∷ rest) text h = elim (Bool-cases (occurs_in a text)) [
    | inl e ↦ rw e (h.0)
    | inr e ↦ rw e (partial_match-Maybe rest text h.1)
  ]

  abbrev BestHas : Best → Type 0
  BestHas none = Unit
  BestHas (some (_, _, r)) = Q r

  -- the best candidate after one more alias
  next-BestHas :
      (score count : ℕ) (r : IntentRecipe) (best : Best)
      → Q r
      → BestHas best
      → BestHas (
          if ltb score fl.match_floor
          then best
          else if beats score count best
          then some (score, count, r)
          else best)
  next-BestHas score count r best q b = elim (Bool-cases (ltb score fl.match_floor)) [
    | inl e ↦ rw e (b)
    | inr e ↦ elim (Bool-cases (beats score count best)) [
      | inl f ↦ rw (e, f) (q)
      | inr f ↦ rw (e, f) (b)
    ]
  ]

  best_phonetic-BestHas :
      (aliases : List PhoneticAlias) (text : Text) (best : Best)
      → All (λ (a : PhoneticAlias). Q a.recipe) aliases
      → BestHas best
      → BestHas (best_phonetic u fl aliases text best)
  unfolding best_phonetic
  best_phonetic-BestHas [] text best h b = b
  best_phonetic-BestHas (a ∷ rest) text best h b =
      best_phonetic-BestHas rest text _ h.1 (next-BestHas _ _ a.recipe best h.0 b)

-- The answer for an unknown text, or one with the id and the slots of a recipe of the list.
abbrev pub IsAnswer : List IntentRecipe → Float → IntentMatch → Type 0
IsAnswer rs uc m =
    (m ≡ no_match uc) ⊎ ((r : IntentRecipe) × Elem r rs × (m.intent ≡ r.id) × (m.slots ≡ r.slots))

All-Elem :
    {A : Type 0} (xs ys : List A) → ((x : A) → Elem x xs → Elem x ys) → All (λ x. Elem x ys) xs
All-Elem [] ys h = tt
All-Elem (x ∷ xs) ys h = (h x (inl refl), All-Elem xs ys (λ z m. h z (inr m)))

module _ (u : Unicode) (fl : Floats) (rs : List IntentRecipe) where
  abbrev Q : IntentRecipe → Type 0
  Q r = Elem r rs

  found : (uc confidence : Float) (r : IntentRecipe) → Q r → IsAnswer rs uc (matched r confidence)
  found uc confidence r q = inr (r, q, refl, refl)

  match_loosely-IsAnswer :
      (c : IntentCatalog) (text : Text) (uc : Float)
      → Leads Q c
      → IsAnswer rs uc (match_loosely u fl c text uc)
  unfolding match_loosely match_phonetic
  match_loosely-IsAnswer c text uc h =
      let partial = partial_match-Maybe u fl Q c.partial_aliases text h.partial in
      let phonetic = best_phonetic-BestHas u fl Q c.phonetic_aliases text none h.phonetic tt in
      elim (Option-cases (partial_match c.partial_aliases text)) [
        | inr (r, e) ↦ rw (e, match_loosely) (found uc r.confidence r (subst (Maybe Q) e partial))
        | inl e ↦ elim (Option-cases (best_phonetic u fl c.phonetic_aliases text none)) [
          | inl f ↦ rw (e, f, match_loosely, match_phonetic) (inl refl)
          | inr ((score, n, r), f) ↦
              rw (e, f, match_loosely, match_phonetic)
                (found uc r.phonetic_confidence r (subst (BestHas u fl Q) f phonetic))
        ]
      ]

  match_compact-IsAnswer :
      (c : IntentCatalog) (text : Text) (uc : Float)
      → Leads Q c
      → IsAnswer rs uc (match_compact u fl c text uc)
  unfolding match_compact
  match_compact-IsAnswer c text uc h =
      let exact = get-Maybe Q text c.exact_aliases h.exact in
      let noise = get-Maybe Q text c.exact_asr_noise h.noise in
      elim (Bool-cases (length text == 0)) [
        | inl e ↦ rw e (inl refl)
        | inr e ↦ elim (Option-cases (Dict.get text c.exact_aliases)) [
          | inr (r, f) ↦ rw (e, f) (found uc r.exact_confidence r (subst (Maybe Q) f exact))
          | inl f ↦ elim (Option-cases (Dict.get text c.exact_asr_noise)) [
            | inr (r, g) ↦ rw (e, f, g) (found uc r.confidence r (subst (Maybe Q) g noise))
            | inl g ↦ rw (e, f, g) (match_loosely-IsAnswer c text uc h)
          ]
        ]
      ]

-- A match of any text against a built catalog is the answer for an unknown text, with the confidence
-- given for it, or it has the id and the slots of one of the catalog's recipes.
pub match_text-IsAnswer :
    (u : Unicode) (fl : Floats) (d : IntentCatalogData) (text : Text) (unknown_confidence : Float)
    → IsAnswer d.intents unknown_confidence
        (match_text u fl (build_catalog u d) text unknown_confidence)
unfolding match_text
match_text-IsAnswer u fl d text unknown_confidence =
    match_compact-IsAnswer u fl d.intents (build_catalog u d) (compact u text) unknown_confidence
      (Leads-build_catalog u fl (λ r. Elem r d.intents) d (All-Elem d.intents d.intents (λ r m. m)))
