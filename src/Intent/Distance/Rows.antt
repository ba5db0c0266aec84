-- ===== src/Intent/Distance/Rows.antt =====
-- brain/intent/catalog.py: the rows that the loops of `_levenshtein_distance` build
use mathlib.Core.List.{reverse, reverse_aux}
use native.Mathlib.Numerals.{add-one}
use nubjuk_brain.Prelude.{
  ℕ, zero, suc, ◌+◌, ◌-◌, ◌≤◌, ◌<◌, ◌≡◌, refl, sym, ◌∙◌, ap, List, [], ◌∷◌, ◌++◌, Text, length,
  get_or, true, false, arith, length-append, text_eq, text_eq_iff, Bool-cases, inl, inr,
}
use nubjuk_brain.Intent.Distance.{range, last_cell, cell, fill_row, fill_rows, levenshtein_distance}
use nubjuk_brain.Intent.Distance.Edits.{dist, dist_refl, dist-reverse}

-- Entries of an appended list.
get_or-append_left :
    (xs ys : List ℕ) (i d : ℕ) → i < length xs → get_or (xs ++ ys) i d ≡ get_or xs i d
get_or-append_left [] ys i d h = absurd (omega arith)
get_or-append_left (x ∷ xs) ys zero d h = refl
get_or-append_left (x ∷ xs) ys (suc i) d h = get_or-append_left xs ys i d (omega arith)

get_or-append_last : (xs : List ℕ) (x d : ℕ) → get_or (xs ++ x ∷ []) (length xs) d ≡ x
get_or-append_last [] x d = refl
get_or-append_last (y ∷ xs) x d = get_or-append_last xs x d

-- The row of `u` over the prefixes of a text; both are written backwards, `v` from its last
-- character on.
row : Text → Text → List ℕ
row u [] = dist u [] ∷ []
row u (c ∷ v) = row u v ++ dist u (c ∷ v) ∷ []

length-row : (u v : Text) → length (row u v) ≡ length v + 1
unfolding row
length-row u [] = refl
length-row u (c ∷ v) = omega (arith, length-append (row u v) (dist u (c ∷ v) ∷ []), length-row u v)

row_last : (u v : Text) → get_or (row u v) (length v) 0 ≡ dist u v
unfolding row
row_last u [] = refl
row_last u (c ∷ v) =
    let e : suc (length v) ≡ length (row u v) = omega (arith, length-row u v) in
    rw e (get_or-append_last (row u v) (dist u (c ∷ v)) 0)

-- The row over a longer text begins with the row over `v`.
row_prefix :
    (u right v : Text) (i : ℕ)
    → i ≤ length v
    → get_or (row u (reverse_aux right v)) i 0 ≡ get_or (row u v) i 0
unfolding reverse_aux row
row_prefix u [] v i h = refl
row_prefix u (c ∷ right) v i h =
    row_prefix u right (c ∷ v) i (omega arith)
    ∙ get_or-append_left (row u v) (dist u (c ∷ v) ∷ []) i 0 (omega (arith, length-row u v))

row_entry : (u right v : Text) → get_or (row u (reverse_aux right v)) (length v) 0 ≡ dist u v
row_entry u right v = row_prefix u right v (length v) (omega arith) ∙ row_last u v

cell-dist :
    (a : ℕ) (u right v : Text) (b : ℕ)
    → cell a (row u (reverse_aux (b ∷ right) v)) (length v + 1) b (row (a ∷ u) v)
      ≡ dist (a ∷ u) (b ∷ v)
unfolding cell dist
cell-dist a u right v b =
    let back : length v + 1 - 1 ≡ length v = omega arith in
    let up : length v + 1 ≡ suc (length v) = omega arith in
    rw (back, row_last (a ∷ u) v, row_entry u (b ∷ right) v, up, row_entry u right (b ∷ v))

fill_row-row :
    (a : ℕ) (u right v : Text)
    → fill_row a (row u (reverse_aux right v)) (length v + 1) right (row (a ∷ u) v)
      ≡ row (a ∷ u) (reverse_aux right v)
unfolding fill_row reverse_aux row
fill_row-row a u [] v = refl
fill_row-row a u (b ∷ right) v =
    let up : length v + 1 ≡ suc (length v) = omega arith in
    rw (cell-dist a u right v b, up) (fill_row-row a u right (b ∷ v))

first_row :
    (a : ℕ) (u right : Text)
    → fill_row a (row u (reverse_aux right [])) 1 right ((length u + 1) ∷ [])
      ≡ row (a ∷ u) (reverse_aux right [])
unfolding row dist
first_row a u right = rw (add-one (length u)) (fill_row-row a u right [])

fill_rows-row :
    (left u right : Text)
    → fill_rows (length u + 1) left right (row u (reverse_aux right []))
      ≡ row (reverse_aux left u) (reverse_aux right [])
unfolding fill_rows reverse_aux
fill_rows-row [] u right = refl
fill_rows-row (a ∷ left) u right =
    let up : length u + 1 ≡ suc (length u) = omega arith in
    rw (first_row a u right, up) (fill_rows-row left (a ∷ u) right)

range-row : (v : Text) → range (length v + 1) ≡ row [] v
unfolding range row dist
range-row [] = refl
range-row (c ∷ v) = rw add-one (ap (λ x. x ++ suc (length v) ∷ []) (rw add-one at (range-row v)))

last_row : (u v : Text) → last_cell (row u v) ≡ dist u v
unfolding last_cell
last_row u v =
    let e : length (row u v) - 1 ≡ length v = omega (arith, length-row u v) in rw e (row_last u v)

length-reverse_aux : (l r : Text) → length (reverse_aux l r) ≡ length l + length r
unfolding reverse_aux
length-reverse_aux [] r = omega arith
length-reverse_aux (c ∷ l) r = omega (arith, length-reverse_aux l (c ∷ r))

table-dist : (l r : Text) → last_cell (fill_rows 1 l r (range (length r + 1))) ≡ dist l r
table-dist l r =
    let same : length r ≡ length (reverse_aux r []) = omega (arith, length-reverse_aux r []) in
    rw
      (
        same,
        range-row (reverse_aux r []),
        fill_rows-row l [] r,
        last_row (reverse_aux l []) (reverse_aux r []),
      )
      (unfold reverse in dist-reverse l r)

levenshtein_ne : (l r : Text) → text_eq l r ≡ false → levenshtein_distance l r ≡ dist l r
unfolding levenshtein_distance
levenshtein_ne [] r e = rw e (unfold dist in refl)
levenshtein_ne (c ∷ l) [] e = rw e (unfold dist in ground arith)
levenshtein_ne (c ∷ l) (d ∷ r) e = ground (arith, table-dist (c ∷ l) (d ∷ r))

levenshtein_eq : (l r : Text) → text_eq l r ≡ true → levenshtein_distance l r ≡ dist l r
unfolding levenshtein_distance
levenshtein_eq l r e = rw e (rw ((text_eq_iff l r).0 e) (sym (dist_refl r)))

-- The program's distance is the recursive one, of the texts read backwards and so of the texts.
pub levenshtein_distance-dist : (l r : Text) → levenshtein_distance l r ≡ dist l r
levenshtein_distance-dist l r = elim (Bool-cases (text_eq l r)) [
  | inl e ↦ levenshtein_eq l r e
  | inr e ↦ levenshtein_ne l r e
]
