-- ===== src/Intent/Distance/Metric.antt =====
-- brain/intent/catalog.py: what `_levenshtein_distance` measures
use nubjuk_brain.Prelude.{ℕ, ◌≤◌, max, ◌≡◌, refl, ◌↔◌, ap, [], ◌∷◌, Text, length, arith}
use native.Mathlib.Nat.{le_antisymm}
use nubjuk_brain.Intent.Distance.{levenshtein_distance}
use nubjuk_brain.Intent.Distance.Edits.{
  Edits, done, keep, insert, remove, replace, dist, cost, dist-reached, dist-least, dist_refl,
}
use nubjuk_brain.Intent.Distance.Rows.{levenshtein_distance-dist}

-- The result of the two-row loop is the length of an edit script that takes the one text to the
-- other.
pub levenshtein_distance-Edits :
    (left right : Text) → Edits left right (levenshtein_distance left right)
levenshtein_distance-Edits l r = rw (levenshtein_distance-dist l r) (dist-reached l r)

-- The result of the two-row loop is not above the length of any edit script that takes the one text
-- to the other.
pub levenshtein_distance_least :
    (left right : Text) (k : ℕ) → Edits left right k → levenshtein_distance left right ≤ k
levenshtein_distance_least l r k e = rw (levenshtein_distance-dist l r) (dist-least e)

Edits-symm : {l r : Text} {k : ℕ} → Edits l r k → Edits r l k
Edits-symm done = done
Edits-symm (keep c e) = keep c (Edits-symm e)
Edits-symm (insert c e) = remove c (Edits-symm e)
Edits-symm (remove c e) = insert c (Edits-symm e)
Edits-symm (replace c d e) = replace d c (Edits-symm e)

Edits-zero : {l r : Text} {k : ℕ} → Edits l r k → k ≡ 0 → l ≡ r
Edits-zero done z = refl
Edits-zero (keep c e) z = ap (◌∷◌ c) (Edits-zero e z)
Edits-zero (insert c e) z = absurd (omega arith)
Edits-zero (remove c e) z = absurd (omega arith)
Edits-zero (replace c d e) z = absurd (omega arith)

-- The distance is symmetric, and 0 exactly between equal texts.
pub levenshtein_distance_separates :
    (left right : Text)
    → (levenshtein_distance left right ≡ levenshtein_distance right left)
      × ((levenshtein_distance left right ≡ 0) ↔ (left ≡ right))
levenshtein_distance_separates l r =
    rw (levenshtein_distance-dist l r, levenshtein_distance-dist r l)
      (
        le_antisymm (dist-least (Edits-symm (dist-reached r l)))
            (dist-least (Edits-symm (dist-reached l r))),
        (λ z. Edits-zero (dist-reached l r) z, λ e. rw e (dist_refl r)),
      )

cost-le-one : (c d : ℕ) → cost c d ≤ 1
cost-le-one c d = ground arith

dist-le-max : (l r : Text) → dist l r ≤ max (length l) (length r)
unfolding dist
dist-le-max [] r = omega arith
dist-le-max (c ∷ l) [] = omega arith
dist-le-max (c ∷ l) (d ∷ r) = omega (arith, dist-le-max l r, cost-le-one c d)

-- The distance is at most the length of the longer text.
pub levenshtein_distance-le-max :
    (left right : Text) → levenshtein_distance left right ≤ max (length left) (length right)
levenshtein_distance-le-max l r = rw (levenshtein_distance-dist l r) (dist-le-max l r)
