-- ===== src/Intent/Distance/Edits.antt =====
-- brain/intent/catalog.py: edit scripts, and a recursive distance to compare the loops with
use native.Mathlib.Decide.{dec_le, ℕ_discrete}
use native.Mathlib.Nat.{add-zero, zero-add, suc-add, add-suc, le_antisymm}
use native.Mathlib.Numerals.{add-one}
use mathlib.Core.List.{reverse, reverse_aux, reverse-reverse}
use nubjuk_brain.Prelude.{
  ◌≢◌, ℕ, suc, ◌+◌, ◌≤◌, min, ◌≡◌, refl, sym, ◌⊎◌, inl, inr, [], ◌∷◌, Text, length, ◌==◌,
  if◌then◌else◌, arith, subst,
}

-- `Edits left right k`: `k` insertions, removals and replacements of one character turn `left` into
-- `right`.
pub data Edits : Text → Text → ℕ → Type 0 where
  done : Edits [] [] 0
  keep : {l r : Text} {k : ℕ} (c : ℕ) → Edits l r k → Edits (c ∷ l) (c ∷ r) k
  insert : {l r : Text} {k : ℕ} (c : ℕ) → Edits l r k → Edits l (c ∷ r) (suc k)
  remove : {l r : Text} {k : ℕ} (c : ℕ) → Edits l r k → Edits (c ∷ l) r (suc k)
  replace : {l r : Text} {k : ℕ} (c d : ℕ) → Edits l r k → Edits (c ∷ l) (d ∷ r) (suc k)

abbrev pub cost : ℕ → ℕ → ℕ
cost c d = if c == d then 0 else 1

unfoldable pub dist : Text → Text → ℕ
dist [] r = length r
dist (c ∷ l) [] = suc (length l)
dist (c ∷ l) (d ∷ r) = min (min (dist (c ∷ l) r + 1) (dist l (d ∷ r) + 1)) (dist l r + cost c d)

inserts : (r : Text) → Edits [] r (length r)
inserts [] = done
inserts (c ∷ r) = insert c (inserts r)

removes : (l : Text) → Edits l [] (length l)
removes [] = done
removes (c ∷ l) = remove c (removes l)

min-choice : (a b : ℕ) → (min a b ≡ a) ⊎ (min a b ≡ b)
min-choice a b = elim (dec_le a b) [ yes h ↦ inl (omega arith) | no h ↦ inr (omega arith) ]

min-intro : (P : ℕ → Type 0) (a b : ℕ) → P a → P b → P (min a b)
min-intro P a b p q = elim (min-choice a b) [
  | inl e ↦ subst P (sym e) p
  | inr e ↦ subst P (sym e) q
]

cost_same : (c d : ℕ) → c ≡ d → cost c d ≡ 0
cost_same c d h = ground arith

cost_other : (c d : ℕ) → c ≢ d → cost c d ≡ 1
cost_other c d h = ground arith

-- the third choice: keep equal characters, replace others
match_or_replace :
    (c d : ℕ) {l r : Text} (k : ℕ) → Edits l r k → Edits (c ∷ l) (d ∷ r) (k + cost c d)
match_or_replace c d {l} {r} k e = elim (ℕ_discrete c d) [
  | yes same ↦
      rw (cost_same c d same, add-zero) (subst (λ x. Edits (c ∷ l) (x ∷ r) k) same (keep c e))
  | no other ↦ rw (cost_other c d other, add-one) (replace c d e)
]

pub dist-reached : (l r : Text) → Edits l r (dist l r)
unfolding dist
dist-reached [] r = inserts r
dist-reached (c ∷ l) [] = removes (c ∷ l)
dist-reached (c ∷ l) (d ∷ r) =
    min-intro (Edits (c ∷ l) (d ∷ r)) _ _
      (min-intro (Edits (c ∷ l) (d ∷ r)) _ _ (rw add-one (insert d (dist-reached (c ∷ l) r)))
        (rw add-one (remove c (dist-reached l (d ∷ r)))))
      (match_or_replace c d (dist l r) (dist-reached l r))

pub dist-nil : (l : Text) → dist l [] ≡ length l
unfolding dist
dist-nil [] = refl
dist-nil (c ∷ l) = refl

pub dist-least : {l r : Text} {k : ℕ} → Edits l r k → dist l r ≤ k
unfolding dist
dist-least done = omega arith
dist-least (keep {l} {r} c e) = ground (arith, dist-least e)
dist-least (insert {l = []} c e) = omega (arith, dist-least e)
dist-least (insert {l = d ∷ l} c e) = omega (arith, dist-least e)
dist-least (remove {r = []} c e) = omega (arith, dist-least e, dist-nil)
dist-least (remove {r = d ∷ r} c e) = omega (arith, dist-least e)
dist-least (replace c d e) = ground (arith, dist-least e)

keeps : (l : Text) → Edits l l 0
keeps [] = done
keeps (c ∷ l) = keep c (keeps l)

pub dist_refl : (l : Text) → dist l l ≡ 0
dist_refl l = omega (arith, dist-least (keeps l))

-- A script read backwards, on top of another.
Edits-reverse_aux :
    {l r l' r' : Text} {j k : ℕ}
    → Edits l r j
    → Edits l' r' k
    → Edits (reverse_aux l l') (reverse_aux r r') (j + k)
unfolding reverse_aux
Edits-reverse_aux done f = rw zero-add f
Edits-reverse_aux (keep c e) f = Edits-reverse_aux e (keep c f)
Edits-reverse_aux (insert c e) f = rw (suc-add, ← add-suc) (Edits-reverse_aux e (insert c f))
Edits-reverse_aux (remove c e) f = rw (suc-add, ← add-suc) (Edits-reverse_aux e (remove c f))
Edits-reverse_aux (replace c d e) f = rw (suc-add, ← add-suc) (Edits-reverse_aux e (replace c d f))

-- A script read backwards turns the reversed texts into one another.
Edits-reverse : {l r : Text} {k : ℕ} → Edits l r k → Edits (reverse l) (reverse r) k
unfolding reverse
Edits-reverse {k} e = rw add-zero at (Edits-reverse_aux e done)

-- The distance of the reversed texts is the distance.
pub dist-reverse : (l r : Text) → dist (reverse l) (reverse r) ≡ dist l r
dist-reverse l r = le_antisymm (dist-least (Edits-reverse (dist-reached l r))) (
    rw (reverse-reverse, reverse-reverse) at
      (dist-least (Edits-reverse (dist-reached (reverse l) (reverse r)))))
