-- ===== src/Intent/Phonetic/Scores.antt =====
-- brain/intent/catalog.py: the windows that `phonetic_similarity` scores
use native.Mathlib.Decide.{dec_le}
use native.Mathlib.Nat.{add-zero, le_antisymm}
use nubjuk_brain.Prelude.{
  ℕ, zero, suc, ◌+◌, ◌-◌, ◌≤◌, ◌<◌, max, ◌≡◌, refl, ◌∙◌, ◌⊎◌, inl, inr, ap, List, [], ◌∷◌, ◌++◌,
  Text, length, take, drop, ltb, arith, length-append, if-intro, Elem, subst, take-drop-append,
}
use nubjuk_brain.Pipeline.{Float}
use nubjuk_brain.Intent.Hangul.{hangul_syllables, hangul_pronunciation_key}
use nubjuk_brain.Intent.Distance.{levenshtein_distance}
use nubjuk_brain.Intent.Distance.Metric.{levenshtein_distance_separates}
use nubjuk_brain.Intent.Phonetic.{
  Floats, FloatsLaws, window_sizes, window_score, scan_starts, scan_size, scan_sizes,
  phonetic_similarity,
}

-- A window that the loops reach: of one of the sizes, and inside the text.
pub record IsWindow (syllables : Text) (sizes : List ℕ) (size i : ℕ) : Type 0 where
  pub among : Elem size sizes
  pub positive : 0 < size
  pub inside : i + size ≤ length syllables

module _ (fl : Floats) (laws : FloatsLaws fl) where
  module _ (key syllables : Text) where
    -- the loop does not fall below what it had
    scan_starts_grows :
        (size rounds start : ℕ) (best : Float)
        → best ≤ scan_starts fl key syllables size rounds start best
    unfolding scan_starts
    scan_starts_grows size zero start best = omega arith
    scan_starts_grows size (suc rounds) start best = omega (
      arith,
      scan_starts_grows size rounds (start + 1)
          (max best (window_score fl key (take size (drop start syllables)))),
    )

    -- nor below the score of a window that it passes
    scan_starts_covers :
        (size rounds start i : ℕ) (best : Float)
        → i < rounds
        → window_score fl key (take size (drop (start + i) syllables))
          ≤ scan_starts fl key syllables size rounds start best
    unfolding scan_starts
    scan_starts_covers size zero start i best h = absurd (omega arith)
    scan_starts_covers size (suc rounds) start zero best h =
        let score = window_score fl key (take size (drop start syllables)) in
        rw add-zero (omega (arith, scan_starts_grows size rounds (start + 1) (max best score)))
    scan_starts_covers size (suc rounds) start (suc i) best h =
        let next : start + suc i ≡ start + 1 + i = omega arith in
        rw next (scan_starts_covers size rounds (start + 1) i _ (omega arith))

    abbrev window : ℕ → ℕ → Text
    window size i = take size (drop i syllables)

    scan_starts_attained :
        (size rounds start : ℕ) (best : Float)
        → (scan_starts fl key syllables size rounds start best ≡ best)
          ⊎ ((i : ℕ) × (i < rounds)
              × (scan_starts fl key syllables size rounds start best
                  ≡ window_score fl key (window size (start + i))))
    unfolding scan_starts
    scan_starts_attained size zero start best = inl refl
    scan_starts_attained size (suc rounds) start best =
        let score = window_score fl key (window size start) in
        elim (scan_starts_attained size rounds (start + 1) (max best score)) [
          | inl e ↦ elim (dec_le score best) [
            | yes h ↦ inl (e ∙ omega arith)
            | no h ↦ inr (0, omega arith, rw add-zero (e ∙ omega arith))
          ]
          | inr (i, h, e) ↦
              let next : start + suc i ≡ start + 1 + i = omega arith in
              inr (suc i, omega arith, rw next e)
        ]

    scan_size_grows : (size : ℕ) (best : Float) → best ≤ scan_size fl key syllables size best
    unfolding scan_size
    scan_size_grows size best =
        ground (arith, scan_starts_grows size (length syllables - size + 1) 0 best)

    scan_size_enters :
        (size : ℕ) (best : Float)
        → 0 < size
        → size ≤ length syllables
        → scan_size fl key syllables size best
          ≡ scan_starts fl key syllables size (length syllables - size + 1) 0 best
    unfolding scan_size
    scan_size_enters size best p q = ground arith

    scan_size_covers :
        (size i : ℕ) (best : Float)
        → 0 < size
        → i + size ≤ length syllables
        → window_score fl key (window size i) ≤ scan_size fl key syllables size best
    scan_size_covers size i best pos inside =
        let start : 0 + i ≡ i = omega arith in
        let reached =
          scan_starts_covers size (length syllables - size + 1) 0 i best (omega arith) in
        let chosen : scan_size fl key syllables size best
            ≡ scan_starts fl key syllables size (length syllables - size + 1) 0 best =
          scan_size_enters size best pos (omega arith) in
        rw chosen (rw start at reached)

    scan_size_attained :
        (size : ℕ) (best : Float)
        → (scan_size fl key syllables size best ≡ best)
          ⊎ ((i : ℕ) × (0 < size)
              × (i + size ≤ length syllables)
              × (scan_size fl key syllables size best ≡ window_score fl key (window size i)))
    scan_size_attained size best = elim (dec_le 1 size) [
      | no p ↦ inl (unfold scan_size in ground arith)
      | yes p ↦ elim (dec_le size (length syllables)) [
        | no q ↦ inl (unfold scan_size in ground arith)
        | yes q ↦
            let rounds = length syllables - size + 1 in
            elim (scan_starts_attained size rounds 0 best) [
              | inl e ↦ inl (scan_size_enters size best p q ∙ e)
              | inr (i, h, e) ↦
                  let start : 0 + i ≡ i = omega arith in
                  inr (i, p, omega arith, scan_size_enters size best p q ∙ rw start at e)
            ]
      ]
    ]

    scan_sizes_grows :
        (sizes : List ℕ) (best : Float) → best ≤ scan_sizes fl key syllables sizes best
    unfolding scan_sizes
    scan_sizes_grows [] best = omega arith
    scan_sizes_grows (s ∷ sizes) best =
        omega (
          arith,
          scan_size_grows s best,
          scan_sizes_grows sizes (scan_size fl key syllables s best),
        )

    scan_sizes_covers :
        (sizes : List ℕ) (best : Float) (size i : ℕ)
        → IsWindow syllables sizes size i
        → window_score fl key (window size i) ≤ scan_sizes fl key syllables sizes best
    unfolding scan_sizes
    scan_sizes_covers [] best size i w = absurd w.among
    scan_sizes_covers (s ∷ sizes) best size i w = elim w.among [
      | inl e ↦
          let same : window_score fl key (window size i) ≤ scan_size fl key syllables s best =
            subst (λ n. window_score fl key (window size i) ≤ scan_size fl key syllables n best) e
              (scan_size_covers size i best w.positive w.inside) in
          omega (arith, same, scan_sizes_grows sizes (scan_size fl key syllables s best))
      | inr later ↦
          scan_sizes_covers sizes (scan_size fl key syllables s best) size i
            (record { among = later; positive = w.positive; inside = w.inside })
    ]

    scan_sizes_attained :
        (sizes : List ℕ) (best : Float)
        → (scan_sizes fl key syllables sizes best ≡ best)
          ⊎ ((size i : ℕ) × IsWindow syllables sizes size i
              × (scan_sizes fl key syllables sizes best ≡ window_score fl key (window size i)))
    unfolding scan_sizes
    scan_sizes_attained [] best = inl refl
    scan_sizes_attained (s ∷ sizes) best =
        elim (scan_sizes_attained sizes (scan_size fl key syllables s best)) [
          | inl e ↦ elim (scan_size_attained s best) [
            | inl f ↦ inl (e ∙ f)
            | inr (i, pos, inside, f) ↦
                inr (s, i, record { among = inl refl; positive = pos; inside = inside }, e ∙ f)
          ]
          | inr (size, i, w, e) ↦
              inr (
                size,
                i,
                record { among = inr w.among; positive = w.positive; inside = w.inside },
                e,
              )
        ]

  among_sizes : (n : ℕ) → Elem n (window_sizes n)
  unfolding window_sizes
  among_sizes n = if-intro (Elem n) (ltb 4 n) (λ _. inr (inl refl)) (λ _. inl refl)

  -- The windows of a text that are compared with an alias.
  abbrev pub Compared : Text → Text → ℕ → ℕ → Type 0
  Compared alias text size i =
      IsWindow (hangul_syllables text) (window_sizes (length (hangul_syllables alias))) size i

  abbrev pub score_at : Text → Text → ℕ → ℕ → Float
  score_at alias text size i =
      window_score fl (hangul_pronunciation_key (hangul_syllables alias))
        (take size (drop i (hangul_syllables text)))

  abbrev pub AreLong : Text → Text → Type 0
  AreLong alias text = (2 ≤ length (hangul_syllables alias)) × (2 ≤ length (hangul_syllables text))

  similarity_long :
      (alias text : Text)
      → AreLong alias text
      → phonetic_similarity fl alias text
        ≡ scan_sizes fl
            (hangul_pronunciation_key (hangul_syllables alias))
            (hangul_syllables text)
            (window_sizes (length (hangul_syllables alias)))
            0
  unfolding phonetic_similarity
  similarity_long alias text h = ground arith

  similarity_short :
      (alias text : Text) → ¬ AreLong alias text → phonetic_similarity fl alias text ≡ 0
  unfolding phonetic_similarity
  similarity_short alias text h = elim (dec_le 2 (length (hangul_syllables alias))) [
    | no p ↦ ground arith
    | yes p ↦ elim (dec_le 2 (length (hangul_syllables text))) [
      | no q ↦ ground arith
      | yes q ↦ absurd (h (p, q))
    ]
  ]

  similarity_best :
      (alias text : Text)
      → AreLong alias text
      → ((size i : ℕ)
          → Compared alias text size i
          → score_at alias text size i ≤ phonetic_similarity fl alias text)
        × ((phonetic_similarity fl alias text ≡ 0)
            ⊎ ((size i : ℕ) × Compared alias text size i
                × (phonetic_similarity fl alias text ≡ score_at alias text size i)))
  similarity_best alias text h =
      rw (similarity_long alias text h)
        (λ size i w. scan_sizes_covers _ _ _ 0 size i w, scan_sizes_attained _ _ _ 0)

  -- If the alias and the text have two syllables or more, the similarity is not below the score of
  -- any window of the text's syllables that the loops compare: its size is among the window sizes,
  -- and it ends inside the text.
  pub phonetic_similarity_bounds :
      (alias text : Text) (size i : ℕ)
      → AreLong alias text
      → Compared alias text size i
      → score_at alias text size i ≤ phonetic_similarity fl alias text
  phonetic_similarity_bounds alias text size i h = (similarity_best alias text h).0 size i

  -- If the alias and the text have two syllables or more, the similarity is 0.0 or the score of a
  -- window of the text's syllables that the loops compare.
  pub phonetic_similarity_attained :
      (alias text : Text)
      → AreLong alias text
      → (phonetic_similarity fl alias text ≡ 0)
        ⊎ ((size i : ℕ) × Compared alias text size i
            × (phonetic_similarity fl alias text ≡ score_at alias text size i))
  phonetic_similarity_attained alias text h = (similarity_best alias text h).1

  window_score_same :
      (syllables : Text) → window_score fl (hangul_pronunciation_key syllables) syllables ≡ fl.one
  unfolding window_score
  window_score_same syllables =
      let key = hangul_pronunciation_key syllables in
      let same : levenshtein_distance key key ≡ 0 =
        (levenshtein_distance_separates key key).1.1 refl in
      let n = max (max (length key) (length key)) 1 in
      ap (λ d. fl.one_minus (fl.ratio d n)) same
      ∙ ap fl.one_minus (laws.ratio_zero n)
      ∙ laws.one_minus_zero

  -- The similarity never exceeds 1.0, for float operations as in `FloatsLaws`.
  pub similarity-le-one : (alias text : Text) → phonetic_similarity fl alias text ≤ fl.one
  similarity-le-one alias text = elim (dec_le 2 (length (hangul_syllables alias))) [
    | no p ↦ rw (similarity_short alias text (λ h. p h.0)) (omega arith)
    | yes p ↦ elim (dec_le 2 (length (hangul_syllables text))) [
      | no q ↦ rw (similarity_short alias text (λ h. q h.1)) (omega arith)
      | yes q ↦ elim (phonetic_similarity_attained alias text (p, q)) [
        | inl e ↦ rw e (omega arith)
        | inr (size, i, w, e) ↦ rw e (unfold window_score in laws.one_minus_le _)
      ]
    ]
  ]

  -- If the syllables of the alias, two or more, stand together in the text's syllables, the
  -- similarity is exactly 1.0, for float operations as in `FloatsLaws`.
  pub phonetic_similarity_exact :
      (alias text before after : Text)
      → 2 ≤ length (hangul_syllables alias)
      → hangul_syllables text ≡ before ++ (hangul_syllables alias ++ after)
      → phonetic_similarity fl alias text ≡ fl.one
  phonetic_similarity_exact alias text before after long found =
      let syllables = hangul_syllables alias in
      let size = length syllables in
      let i = length before in
      let total : length (hangul_syllables text) ≡ i + (size + length after) =
        ap length found
        ∙ omega (arith, length-append before (syllables ++ after), length-append syllables after) in
      let here : take size (drop i (hangul_syllables text)) ≡ syllables =
        ap (λ t. take size (drop i t)) found ∙ take-drop-append before syllables after in
      let score : score_at alias text size i ≡ fl.one =
        ap (window_score fl (hangul_pronunciation_key syllables)) here
        ∙ window_score_same syllables in
      let reached =
        phonetic_similarity_bounds alias text size i (long, omega arith)
          (record { among = among_sizes size; positive = omega arith; inside = omega arith }) in
      le_antisymm (similarity-le-one alias text) (rw score at reached)
