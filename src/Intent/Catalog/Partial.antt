-- ===== src/Intent/Catalog/Partial.antt =====
-- brain/intent/catalog.py: the partial stage of `match`
use nubjuk_brain.Prelude.{
  ℕ, ◌≤◌, ◌≡◌, refl, sym, ◌∙◌, inl, inr, Bool, true, false, Option, none, some, List, [], ◌∷◌, Text,
  length, ltb, arith, Elem, Bool-cases, subst, if-intro,
}
use nubjuk_brain.Intent.Recipe.{IntentRecipe, IntentCatalogData}
use nubjuk_brain.Intent.Normalize.{Unicode}
use nubjuk_brain.Intent.Sorting.{insert_desc, sort_desc}
use nubjuk_brain.Intent.Catalog.{
  build_catalog, index_recipes, blank_catalog, occurs_in, partial_match,
}

abbrev Entry : Type 0
Entry = Text × IntentRecipe

abbrev longer : Entry → Entry → Bool
longer a b = ltb (length b.0) (length a.0)

-- no later key is longer than an earlier one
abbrev Below : ℕ → List Entry → Type 0
Below n [] = Unit
Below n (e ∷ es) = (length e.0 ≤ n) × Below n es

IsDescending : List Entry → Type 0
IsDescending [] = Unit
IsDescending (e ∷ es) = Below (length e.0) es × IsDescending es

Below-insert :
    (n : ℕ) (x : Entry) (es : List Entry)
    → length x.0 ≤ n
    → Below n es
    → Below n (insert_desc longer x es)
unfolding insert_desc
Below-insert n x [] h b = (h, tt)
Below-insert n x (e ∷ es) h b =
    if-intro (Below n) (longer e x) (λ _. (b.0, Below-insert n x es h b.1)) (λ _. (h, b))

Below-weaken : (n m : ℕ) (es : List Entry) → n ≤ m → Below n es → Below m es
Below-weaken n m [] h b = tt
Below-weaken n m (e ∷ es) h b = (omega arith, Below-weaken n m es h b.1)

insert-IsDescending :
    (x : Entry) (es : List Entry) → IsDescending es → IsDescending (insert_desc longer x es)
unfolding insert_desc IsDescending
insert-IsDescending x [] h = (tt, tt)
insert-IsDescending x (e ∷ es) h =
    if-intro IsDescending (longer e x)
      (λ t. (Below-insert (length e.0) x es (ground arith) h.0, insert-IsDescending x es h.1))
      (λ t. ((ground arith, Below-weaken (length e.0) (length x.0) es (ground arith) h.0), h))

sort-IsDescending : (es : List Entry) → IsDescending (sort_desc longer es)
unfolding sort_desc
sort-IsDescending [] = unfold IsDescending in tt
sort-IsDescending (e ∷ es) = insert-IsDescending e (sort_desc longer es) (sort-IsDescending es)

Elem-insert :
    (y x : Entry) (es : List Entry)
    → (Elem y (insert_desc longer x es) → Elem y (x ∷ es))
      × (Elem y (x ∷ es) → Elem y (insert_desc longer x es))
unfolding insert_desc
Elem-insert y x [] = (λ m. m, λ m. m)
Elem-insert y x (e ∷ es) =
    if-intro (λ l. (Elem y l → Elem y (x ∷ e ∷ es)) × (Elem y (x ∷ e ∷ es) → Elem y l)) (longer e x)
      (λ _.
        let rest = Elem-insert y x es in
        (
          λ m. elim m [
            | inl h ↦ inr (inl h)
            | inr n ↦ elim (rest.0 n) [ inl h ↦ inl h | inr k ↦ inr (inr k) ]
          ],
          λ m. elim m [
            | inl h ↦ inr (rest.1 (inl h))
            | inr n ↦ elim n [ inl h ↦ inl h | inr k ↦ inr (rest.1 (inr k)) ]
          ],
        ))
      (λ _. (λ m. m, λ m. m))

Elem-sort :
    (y : Entry) (es : List Entry)
    → (Elem y (sort_desc longer es) → Elem y es) × (Elem y es → Elem y (sort_desc longer es))
unfolding sort_desc
Elem-sort y [] = (λ m. m, λ m. m)
Elem-sort y (e ∷ es) =
    let here = Elem-insert y e (sort_desc longer es) in
    let rest = Elem-sort y es in
    (
      λ m. elim (here.0 m) [ inl h ↦ inl h | inr n ↦ inr (rest.0 n) ],
      λ m. here.1 (elim m [ inl h ↦ inl h | inr n ↦ inr (rest.1 n) ]),
    )

Below-Elem : (n : ℕ) (y : Entry) (es : List Entry) → Below n es → Elem y es → length y.0 ≤ n
Below-Elem n y [] b m = absurd m
Below-Elem n y (e ∷ es) b (inl h) = subst (λ (x : Entry). length x.0 ≤ n) (sym h) b.0
Below-Elem n y (e ∷ es) b (inr m) = Below-Elem n y es b.1 m

-- Of the entries of a list: what the first hit of the loop is.
abbrev pub IsLongest : List Entry → Text → Option IntentRecipe → Type 0
IsLongest es text none = (y : Entry) → Elem y es → occurs_in y.0 text ≡ false
IsLongest es text (some r) =
    (key : Text) × Elem (key, r) es
    × (occurs_in key text ≡ true)
    × ((y : Entry) → Elem y es → occurs_in y.0 text ≡ true → length y.0 ≤ length key)

behind :
    (key : Text) (r : IntentRecipe) (es : List Entry) (text : Text) (o : Option IntentRecipe)
    → occurs_in key text ≡ false
    → IsLongest es text o
    → IsLongest ((key, r) ∷ es) text o
behind key r es text none miss k = λ y m. elim m [
  | inl same ↦ subst (λ (x : Entry). occurs_in x.0 text ≡ false) (sym same) miss
  | inr later ↦ k y later
]
behind key r es text (some q) miss (k, m, o, longest) = (
  k,
  inr m,
  o,
  λ y n p. elim n [
    | inl same ↦ absurd (cc (sym miss ∙ subst (λ (x : Entry). occurs_in x.0 text ≡ true) same p))
    | inr later ↦ longest y later p
  ],
)

first-IsLongest :
    (es : List Entry) (text : Text) → IsDescending es → IsLongest es text (partial_match es text)
unfolding partial_match IsDescending
first-IsLongest [] text h = λ y m. absurd m
first-IsLongest ((key, r) ∷ es) text h = elim (Bool-cases (occurs_in key text)) [
  | inl e ↦ rw e (
    key,
    inl refl,
    e,
    λ y m o. elim m [
      | inl same ↦ subst (λ (x : Entry). length x.0 ≤ length key) (sym same) (omega arith)
      | inr later ↦ Below-Elem (length key) y es h.0 later
    ],
  )
  | inr e ↦ rw e (behind key r es text (partial_match es text) e (first-IsLongest es text h.1))
]

IsLongest-sort :
    (es : List Entry) (text : Text) (o : Option IntentRecipe)
    → IsLongest (sort_desc longer es) text o
    → IsLongest es text o
IsLongest-sort es text none k = λ y m. k y ((Elem-sort y es).1 m)
IsLongest-sort es text (some r) (key, m, o, longest) =
    (key, (Elem-sort (key, r) es).0 m, o, λ y n p. longest y ((Elem-sort y es).1 n) p)

-- The aliases of all recipes, compact, in the order of the catalog.
abbrev pub partial_entries : Unicode → IntentCatalogData → List Entry
partial_entries u d = (index_recipes u d.intents (blank_catalog u d)).partial_aliases

-- The partial stage of a built catalog finds, among the entries that the constructor collects, one
-- that occurs in the text and is at least as long as every other that does, and finds none only if
-- none occurs.
pub partial_match-IsLongest :
    (u : Unicode) (d : IntentCatalogData) (text : Text)
    → IsLongest (partial_entries u d) text (partial_match (build_catalog u d).partial_aliases text)
unfolding build_catalog
partial_match-IsLongest u d text =
    IsLongest-sort (partial_entries u d) text
      (partial_match (sort_desc longer (partial_entries u d)) text)
      (first-IsLongest (sort_desc longer (partial_entries u d)) text
        (sort-IsDescending (partial_entries u d)))
