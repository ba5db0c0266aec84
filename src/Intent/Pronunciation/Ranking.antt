-- ===== src/Intent/Pronunciation/Ranking.antt =====
-- brain/intent/catalog.py: the order of `pronunciation_candidates`
use nubjuk_brain.Prelude.{
  ℕ, ◌≤◌, ◌≡◌, refl, inl, inr, List, [], ◌∷◌, Text, text_eq_iff, length, length-take, ltb, ◌==◌,
  All, Elem, arith, if-intro,
}
use nubjuk_brain.Prelude.Dict
use nubjuk_brain.Prelude.Dict.{Dict}
use nubjuk_brain.Pipeline.{Float}
use nubjuk_brain.Intent.Normalize.{Unicode, compact}
use nubjuk_brain.Intent.Phonetic.{Floats, phonetic_similarity}
use nubjuk_brain.Intent.Sorting.{sort_desc}
use nubjuk_brain.Intent.Catalog.{PhoneticAlias, IntentCatalog}
use nubjuk_brain.Intent.Pronunciation.{
  PronunciationCandidate, outranks, outranks_existing, note_alias, note_aliases,
  pronunciation_candidates,
}
use nubjuk_brain.Intent.Pronunciation.Ordered.{
  IsRanked, All-sort, All-take, sort-IsRanked, take-IsRanked,
}
use nubjuk_brain.Intent.Pronunciation.Keyed.{
  IsKeyed, put-IsKeyed, values-AreDistinct, values-All, put-All,
}

module _ (fl : Floats) (text : Text) (min_score : Float) where
  -- the candidate of a phonetic alias whose similarity to the text reaches the minimum
  pub record IsFrom (a : PhoneticAlias) (c : PronunciationCandidate) : Type 0 where
    pub intent : c.intent ≡ a.recipe.id
    pub alias : c.alias ≡ a.alias
    pub score : c.score ≡ fl.round_3 (phonetic_similarity fl a.alias_compact text)
    pub reached : min_score ≤ phonetic_similarity fl a.alias_compact text

  abbrev pub IsSourced : List PhoneticAlias → PronunciationCandidate → Type 0
  IsSourced aliases c = (a : PhoneticAlias) × Elem a aliases × IsFrom a c

  note_alias-kept :
      (aliases : List PhoneticAlias) (a : PhoneticAlias) (d : Dict PronunciationCandidate)
      → Elem a aliases
      → IsKeyed d
      → All (λ (e : Text × PronunciationCandidate). IsSourced aliases e.1) d
      → IsKeyed (note_alias fl text min_score a d)
        × All
            (λ (e : Text × PronunciationCandidate). IsSourced aliases e.1)
            (note_alias fl text min_score a d)
  unfolding note_alias
  note_alias-kept aliases a d m k h =
      let score = phonetic_similarity fl a.alias_compact text in
      let c : PronunciationCandidate = record {
        intent = a.recipe.id;
        alias = a.alias;
        score = fl.round_3 score;
      } in
      let P = λ (x : Dict PronunciationCandidate).
        IsKeyed x × All (λ (e : Text × PronunciationCandidate). IsSourced aliases e.1) x in
      if-intro P (ltb score min_score) (λ _. (k, h))
        (λ low.
          if-intro P (outranks_existing c (Dict.get a.recipe.id d))
            (λ _. (
              put-IsKeyed a.recipe.id c d ((text_eq_iff a.recipe.id a.recipe.id).1 refl) k,
              put-All (IsSourced aliases) a.recipe.id c d
                  (
                    a,
                    m,
                    record { intent = refl; alias = refl; score = refl; reached = ground arith },
                  )
                  h,
            ))
            (λ _. (k, h)))

  note_aliases-kept :
      (aliases rest : List PhoneticAlias) (d : Dict PronunciationCandidate)
      → All (λ (a : PhoneticAlias). Elem a aliases) rest
      → IsKeyed d
      → All (λ (e : Text × PronunciationCandidate). IsSourced aliases e.1) d
      → IsKeyed (note_aliases fl text min_score rest d)
        × All
            (λ (e : Text × PronunciationCandidate). IsSourced aliases e.1)
            (note_aliases fl text min_score rest d)
  unfolding note_aliases
  note_aliases-kept aliases [] d m k h = (k, h)
  note_aliases-kept aliases (a ∷ rest) d m k h =
      let (k₁, h₁) = note_alias-kept aliases a d m.0 k h in
      note_aliases-kept aliases rest (note_alias fl text min_score a d) m.1 k₁ h₁

All-members :
    (xs ys : List PhoneticAlias)
    → ((a : PhoneticAlias) → Elem a xs → Elem a ys)
    → All (λ (a : PhoneticAlias). Elem a ys) xs
All-members [] ys f = tt
All-members (x ∷ xs) ys f = (f x (inl refl), All-members xs ys (λ a m. f a (inr m)))

module _ (u : Unicode) (fl : Floats) (c : IntentCatalog) (text : Text) (min_score : Float)
    (limit : ℕ) where
  noted :
      IsKeyed (note_aliases fl (compact u text) min_score c.phonetic_aliases [])
      × All
          (λ (e : Text × PronunciationCandidate).
            IsSourced fl (compact u text) min_score c.phonetic_aliases e.1)
          (note_aliases fl (compact u text) min_score c.phonetic_aliases [])
  noted =
      note_aliases-kept fl (compact u text) min_score c.phonetic_aliases c.phonetic_aliases []
        (All-members c.phonetic_aliases c.phonetic_aliases (λ a m. m)) tt tt

  -- The pronunciation candidates of a text are at most as many as the limit, no one is outranked in
  -- score and then in length by one behind it, and no two have the same intent. Each comes from a
  -- phonetic alias of the catalog: it has the id of its recipe, its spelling and its rounded similarity
  -- to the compact text, which is not below the minimum.
  pub pronunciation_candidates-IsRanked :
      (length (pronunciation_candidates fl u c text min_score limit) ≤ limit)
      × IsRanked (pronunciation_candidates fl u c text min_score limit)
      × All
          (IsSourced fl (compact u text) min_score c.phonetic_aliases)
          (pronunciation_candidates fl u c text min_score limit)
  unfolding pronunciation_candidates
  pronunciation_candidates-IsRanked =
      let values = Dict.values (note_aliases fl (compact u text) min_score c.phonetic_aliases []) in
      let Q = IsSourced fl (compact u text) min_score c.phonetic_aliases in
      if-intro (λ (x : List PronunciationCandidate). (length x ≤ limit) × IsRanked x × All Q x)
        (length (compact u text) == 0) (λ _. (omega arith, tt, tt))
        (λ _. (
          omega (arith, length-take limit (sort_desc outranks values)),
          take-IsRanked limit _ (sort-IsRanked values (values-AreDistinct _ noted.0)),
          All-take Q limit _ (All-sort Q _ (values-All Q _ noted.1)),
        ))
