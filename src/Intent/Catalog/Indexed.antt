-- ===== src/Intent/Catalog/Indexed.antt =====
-- brain/intent/catalog.py: what the indexes of `IntentCatalog` hold under a key
use nubjuk_brain.Prelude.{
  ◌≡◌, refl, sym, ◌∙◌, ap, subst, ◌⊎◌, inl, inr, some, List, [], ◌∷◌, ◌++◌, map, Text, text_eq,
  text_eq_iff, arith, Elem, Bool-cases,
}
use nubjuk_brain.Prelude.Dict
use nubjuk_brain.Prelude.Dict.{Dict, get-put}
use nubjuk_brain.Intent.Normalize.{Unicode, compact}
use nubjuk_brain.Intent.Recipe.{IntentRecipe}
use nubjuk_brain.Intent.Recipe.Valid.{IsFresh, recipe_keys, all_keys}
use nubjuk_brain.Intent.Catalog.{
  IntentCatalog, index_alias, index_aliases, index_noise, index_recipes,
}

-- Membership in an appended list, and in a mapped one.
Elem-append : {A : Type 0} (a : A) (xs ys : List A) → Elem a (xs ++ ys) → Elem a xs ⊎ Elem a ys
Elem-append a [] ys m = inr m
Elem-append a (x ∷ xs) ys (inl e) = inl (inl e)
Elem-append a (x ∷ xs) ys (inr m) = elim (Elem-append a xs ys m) [
  | inl n ↦ inl (inr n)
  | inr n ↦ inr n
]

Elem-append_left : {A : Type 0} (a : A) (xs ys : List A) → Elem a xs → Elem a (xs ++ ys)
Elem-append_left a (x ∷ xs) ys (inl e) = inl e
Elem-append_left a (x ∷ xs) ys (inr m) = inr (Elem-append_left a xs ys m)
Elem-append_left a [] ys m = absurd m

Elem-append_right : {A : Type 0} (a : A) (xs ys : List A) → Elem a ys → Elem a (xs ++ ys)
Elem-append_right a [] ys m = m
Elem-append_right a (x ∷ xs) ys m = inr (Elem-append_right a xs ys m)

pub Elem-map : {A B : Type 0} (f : A → B) (a : A) (xs : List A) → Elem a xs → Elem (f a) (map f xs)
Elem-map f a (x ∷ xs) (inl e) = inl (ap f e)
Elem-map f a (x ∷ xs) (inr m) = inr (Elem-map f a xs m)
Elem-map f a [] m = absurd m

map-append : {A B : Type 0} (f : A → B) (xs ys : List A) → map f (xs ++ ys) ≡ map f xs ++ map f ys
map-append f [] ys = refl
map-append f (x ∷ xs) ys = ap (◌∷◌ (f x)) (map-append f xs ys)

-- Fresh texts are not among the seen ones, and two parts of a fresh list have none in common.
fresh_seen : (k : Text) (seen xs : List Text) → IsFresh seen xs → Elem k seen → ¬ Elem k xs
fresh_seen k seen [] h s m = m
fresh_seen k seen (x ∷ xs) h s (inl e) = h.0 (subst (λ t. Elem t seen) e s)
fresh_seen k seen (x ∷ xs) h s (inr m) = fresh_seen k (x ∷ seen) xs h.1 (inr s) m

pub fresh_apart :
    (k : Text) (seen xs ys : List Text) → IsFresh seen (xs ++ ys) → Elem k xs → ¬ Elem k ys
fresh_apart k seen [] ys h m = absurd m
fresh_apart k seen (x ∷ xs) ys h (inl e) =
    λ n. fresh_seen k (x ∷ seen) (xs ++ ys) h.1 (inl e) (Elem-append_right k xs ys n)
fresh_apart k seen (x ∷ xs) ys h (inr m) = fresh_apart k (x ∷ seen) xs ys h.1 m

IsFresh-rest : (seen xs ys : List Text) → IsFresh seen (xs ++ ys) → (s : List Text) × IsFresh s ys
IsFresh-rest seen [] ys h = (seen, h)
IsFresh-rest seen (x ∷ xs) ys h = IsFresh-rest (x ∷ seen) xs ys h.1

IsFresh-left : (seen xs ys : List Text) → IsFresh seen (xs ++ ys) → IsFresh seen xs
IsFresh-left seen [] ys h = tt
IsFresh-left seen (x ∷ xs) ys h = (h.0, IsFresh-left (x ∷ seen) xs ys h.1)

module _ {V : Type 0} where
  get-put_self : (k : Text) (v : V) (d : Dict V) → Dict.get k (Dict.put k v d) ≡ some v
  get-put_self k v d = get-put k k v d ∙ rw ((text_eq_iff k k).1 refl)

  get-put_other :
      (j k : Text) (v : V) (d : Dict V) → ¬ (k ≡ j) → Dict.get k (Dict.put j v d) ≡ Dict.get k d
  get-put_other j k v d ne = elim (Bool-cases (text_eq j k)) [
    | inl e ↦ absurd (ne (sym ((text_eq_iff j k).0 e)))
    | inr e ↦ get-put j k v d ∙ rw e
  ]

  -- what an entry written again keeps
  get-put_again :
      (j k : Text) (v : V) (d : Dict V)
      → Dict.get k d ≡ some v
      → Dict.get k (Dict.put j v d) ≡ some v
  get-put_again j k v d h = ground (arith, get-put j k v d)

module _ (u : Unicode) where
  -- the keys of the aliases of all recipes
  pub alias_keys : List IntentRecipe → List Text
  alias_keys [] = []
  alias_keys (r ∷ rs) = map (compact u) r.aliases ++ alias_keys rs

  module _ (r : IntentRecipe) where
    aliases_other :
        (k : Text) (texts : List Text) (c : IntentCatalog)
        → ¬ Elem k (map (compact u) texts)
        → Dict.get k (index_aliases u r texts c).exact_aliases ≡ Dict.get k c.exact_aliases
    unfolding index_aliases index_alias
    aliases_other k [] c h = refl
    aliases_other k (a ∷ texts) c h =
        aliases_other k texts (index_alias u r a c) (λ m. h (inr m))
        ∙ get-put_other (compact u a) k r c.exact_aliases (λ e. h (inl e))

    aliases_again :
        (k : Text) (texts : List Text) (c : IntentCatalog)
        → Dict.get k c.exact_aliases ≡ some r
        → Dict.get k (index_aliases u r texts c).exact_aliases ≡ some r
    unfolding index_aliases index_alias
    aliases_again k [] c h = h
    aliases_again k (a ∷ texts) c h =
        aliases_again k texts (index_alias u r a c)
          (get-put_again (compact u a) k r c.exact_aliases h)

    aliases_found :
        (a : Text) (texts : List Text) (c : IntentCatalog)
        → Elem a texts
        → Dict.get (compact u a) (index_aliases u r texts c).exact_aliases ≡ some r
    unfolding index_aliases index_alias
    aliases_found a [] c m = absurd m
    aliases_found a (b ∷ texts) c (inl e) =
        aliases_again (compact u a) texts (index_alias u r b c)
          (rw e (get-put_self (compact u b) r c.exact_aliases))
    aliases_found a (b ∷ texts) c (inr m) = aliases_found a texts (index_alias u r b c) m

    -- one dictionary's loop leaves the other alone
    aliases-noise :
        (texts : List Text) (c : IntentCatalog)
        → (index_aliases u r texts c).exact_asr_noise ≡ c.exact_asr_noise
    unfolding index_aliases index_alias
    aliases-noise [] c = refl
    aliases-noise (a ∷ texts) c = aliases-noise texts (index_alias u r a c)

    noise-aliases :
        (texts : List Text) (c : IntentCatalog)
        → (index_noise u r texts c).exact_aliases ≡ c.exact_aliases
    unfolding index_noise
    noise-aliases [] c = refl
    noise-aliases (a ∷ texts) c =
        noise-aliases texts
          (record c { exact_asr_noise = Dict.put (compact u a) r c.exact_asr_noise })

    noise_other :
        (k : Text) (texts : List Text) (c : IntentCatalog)
        → ¬ Elem k (map (compact u) texts)
        → Dict.get k (index_noise u r texts c).exact_asr_noise ≡ Dict.get k c.exact_asr_noise
    unfolding index_noise
    noise_other k [] c h = refl
    noise_other k (a ∷ texts) c h =
        noise_other k texts
          (record c { exact_asr_noise = Dict.put (compact u a) r c.exact_asr_noise })
          (λ m. h (inr m))
        ∙ get-put_other (compact u a) k r c.exact_asr_noise (λ e. h (inl e))

    noise_again :
        (k : Text) (texts : List Text) (c : IntentCatalog)
        → Dict.get k c.exact_asr_noise ≡ some r
        → Dict.get k (index_noise u r texts c).exact_asr_noise ≡ some r
    unfolding index_noise
    noise_again k [] c h = h
    noise_again k (a ∷ texts) c h =
        noise_again k texts
          (record c { exact_asr_noise = Dict.put (compact u a) r c.exact_asr_noise })
          (get-put_again (compact u a) k r c.exact_asr_noise h)

    noise_found :
        (a : Text) (texts : List Text) (c : IntentCatalog)
        → Elem a texts
        → Dict.get (compact u a) (index_noise u r texts c).exact_asr_noise ≡ some r
    unfolding index_noise
    noise_found a [] c m = absurd m
    noise_found a (b ∷ texts) c (inl e) =
        noise_again (compact u a) texts
          (record c { exact_asr_noise = Dict.put (compact u b) r c.exact_asr_noise })
          (rw e (get-put_self (compact u b) r c.exact_asr_noise))
    noise_found a (b ∷ texts) c (inr m) =
        noise_found a texts
          (record c { exact_asr_noise = Dict.put (compact u b) r c.exact_asr_noise }) m

  -- the keys of one recipe's aliases and of its noise are keys of the recipe
  pub Elem-alias :
      (r : IntentRecipe) (k : Text) → Elem k (map (compact u) r.aliases) → Elem k (recipe_keys u r)
  Elem-alias r k m =
      subst (Elem k) (sym (map-append (compact u) r.aliases r.asr_noise))
        (Elem-append_left k (map (compact u) r.aliases) (map (compact u) r.asr_noise) m)

  pub Elem-noise :
      (r : IntentRecipe) (k : Text)
      → Elem k (map (compact u) r.asr_noise)
      → Elem k (recipe_keys u r)
  Elem-noise r k m =
      subst (Elem k) (sym (map-append (compact u) r.aliases r.asr_noise))
        (Elem-append_right k (map (compact u) r.aliases) (map (compact u) r.asr_noise) m)

  Elem-alias_keys :
      (k : Text) (rs : List IntentRecipe) → Elem k (alias_keys rs) → Elem k (all_keys u rs)
  unfolding alias_keys
  Elem-alias_keys k [] m = m
  Elem-alias_keys k (r ∷ rs) m =
      elim (Elem-append k (map (compact u) r.aliases) (alias_keys rs) m) [
        | inl n ↦ Elem-append_left k (recipe_keys u r) (all_keys u rs) (Elem-alias r k n)
        | inr n ↦ Elem-append_right k (recipe_keys u r) (all_keys u rs) (Elem-alias_keys k rs n)
      ]

  pub Elem-all_keys :
      (r : IntentRecipe) (k : Text) (rs : List IntentRecipe)
      → Elem r rs
      → Elem k (recipe_keys u r)
      → Elem k (all_keys u rs)
  Elem-all_keys r k [] m n = absurd m
  Elem-all_keys r k (q ∷ rs) (inl e) n =
      Elem-append_left k (recipe_keys u q) (all_keys u rs)
        (subst (λ x. Elem k (recipe_keys u x)) e n)
  Elem-all_keys r k (q ∷ rs) (inr m) n =
      Elem-append_right k (recipe_keys u q) (all_keys u rs) (Elem-all_keys r k rs m n)

  -- a key of no alias is not added to `exact_aliases`
  pub recipes_other :
      (k : Text) (rs : List IntentRecipe) (c : IntentCatalog)
      → ¬ Elem k (alias_keys rs)
      → Dict.get k (index_recipes u rs c).exact_aliases ≡ Dict.get k c.exact_aliases
  unfolding index_recipes alias_keys
  recipes_other k [] c h = refl
  recipes_other k (r ∷ rs) c h =
      let c₁ = index_aliases u r r.aliases c in
      let keys = map (compact u) r.aliases in
      recipes_other k rs (index_noise u r r.asr_noise c₁)
        (λ m. h (Elem-append_right k keys (alias_keys rs) m))
      ∙ ap (Dict.get k) (noise-aliases r r.asr_noise c₁)
      ∙ aliases_other r k r.aliases c (λ m. h (Elem-append_left k keys (alias_keys rs) m))

  noise_recipes_other :
      (k : Text) (rs : List IntentRecipe) (c : IntentCatalog)
      → ¬ Elem k (all_keys u rs)
      → Dict.get k (index_recipes u rs c).exact_asr_noise ≡ Dict.get k c.exact_asr_noise
  unfolding index_recipes
  noise_recipes_other k [] c h = refl
  noise_recipes_other k (r ∷ rs) c h =
      let c₁ = index_aliases u r r.aliases c in
      noise_recipes_other k rs (index_noise u r r.asr_noise c₁)
        (λ m. h (Elem-append_right k (recipe_keys u r) (all_keys u rs) m))
      ∙ noise_other r k r.asr_noise c₁
          (λ m. h (Elem-append_left k (recipe_keys u r) (all_keys u rs) (Elem-noise r k m)))
      ∙ ap (Dict.get k) (aliases-noise r r.aliases c)

  -- Under the compact form of an alias stands the recipe of the alias.
  pub recipes_found :
      (r : IntentRecipe) (a : Text) (seen : List Text) (rs : List IntentRecipe) (c : IntentCatalog)
      → IsFresh seen (all_keys u rs)
      → Elem r rs
      → Elem a r.aliases
      → Dict.get (compact u a) (index_recipes u rs c).exact_aliases ≡ some r
  unfolding index_recipes
  recipes_found r a seen [] c f m n = absurd m
  recipes_found r a seen (q ∷ rs) c f (inl e) n =
      let c₁ = index_aliases u q q.aliases c in
      let n' : Elem a q.aliases = subst (λ x. Elem a x.aliases) e n in
      let key = Elem-alias q (compact u a) (Elem-map (compact u) a q.aliases n') in
      recipes_other (compact u a) rs (index_noise u q q.asr_noise c₁) (λ m.
        fresh_apart (compact u a) seen (recipe_keys u q) (all_keys u rs) f key
          (Elem-alias_keys (compact u a) rs m))
      ∙ ap (Dict.get (compact u a)) (noise-aliases q q.asr_noise c₁)
      ∙ aliases_found q a q.aliases c n'
      ∙ ap some (sym e)
  recipes_found r a seen (q ∷ rs) c f (inr m) n =
      let (s, f') = IsFresh-rest seen (recipe_keys u q) (all_keys u rs) f in
      recipes_found r a s rs (index_noise u q q.asr_noise (index_aliases u q q.aliases c)) f' m n

  -- Under the compact form of an ASR noise stands its recipe, in the dictionary for noise.
  pub recipes_noise_found :
      (r : IntentRecipe) (a : Text) (seen : List Text) (rs : List IntentRecipe) (c : IntentCatalog)
      → IsFresh seen (all_keys u rs)
      → Elem r rs
      → Elem a r.asr_noise
      → Dict.get (compact u a) (index_recipes u rs c).exact_asr_noise ≡ some r
  unfolding index_recipes
  recipes_noise_found r a seen [] c f m n = absurd m
  recipes_noise_found r a seen (q ∷ rs) c f (inl e) n =
      let c₁ = index_aliases u q q.aliases c in
      let n' : Elem a q.asr_noise = subst (λ x. Elem a x.asr_noise) e n in
      let key = Elem-noise q (compact u a) (Elem-map (compact u) a q.asr_noise n') in
      noise_recipes_other (compact u a) rs (index_noise u q q.asr_noise c₁)
        (fresh_apart (compact u a) seen (recipe_keys u q) (all_keys u rs) f key)
      ∙ noise_found q a q.asr_noise c₁ n'
      ∙ ap some (sym e)
  recipes_noise_found r a seen (q ∷ rs) c f (inr m) n =
      let (s, f') = IsFresh-rest seen (recipe_keys u q) (all_keys u rs) f in
      recipes_noise_found r a s rs (index_noise u q q.asr_noise (index_aliases u q q.aliases c)) f'
        m n

  -- An ASR noise is no alias of any recipe.
  pub noise_not_alias :
      (r : IntentRecipe) (a : Text) (seen : List Text) (rs : List IntentRecipe)
      → IsFresh seen (all_keys u rs)
      → Elem r rs
      → Elem a r.asr_noise
      → ¬ Elem (compact u a) (alias_keys rs)
  unfolding alias_keys
  noise_not_alias r a seen [] f m n x = absurd m
  noise_not_alias r a seen (q ∷ rs) f (inl e) n x =
      let n' : Elem a q.asr_noise = subst (λ y. Elem a y.asr_noise) e n in
      let key = Elem-map (compact u) a q.asr_noise n' in
      let aliases = map (compact u) q.aliases in
      let noise = map (compact u) q.asr_noise in
      elim (Elem-append (compact u a) aliases (alias_keys rs) x) [
        | inl p ↦
            fresh_apart (compact u a) seen aliases noise
              (subst (IsFresh seen) (map-append (compact u) q.aliases q.asr_noise)
                (IsFresh-left seen (recipe_keys u q) (all_keys u rs) f))
              p key
        | inr p ↦
            fresh_apart (compact u a) seen (recipe_keys u q) (all_keys u rs) f
              (Elem-noise q (compact u a) key) (Elem-alias_keys (compact u a) rs p)
      ]
  noise_not_alias r a seen (q ∷ rs) f (inr m) n x =
      let key = Elem-noise r (compact u a) (Elem-map (compact u) a r.asr_noise n) in
      let (s, f') = IsFresh-rest seen (recipe_keys u q) (all_keys u rs) f in
      elim (Elem-append (compact u a) (map (compact u) q.aliases) (alias_keys rs) x) [
        | inl p ↦
            fresh_apart (compact u a) seen (recipe_keys u q) (all_keys u rs) f
              (Elem-alias q (compact u a) p) (Elem-all_keys r (compact u a) rs m key)
        | inr p ↦ noise_not_alias r a s rs f' m n p
      ]
