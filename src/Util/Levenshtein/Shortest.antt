-- ===== src/Util/Levenshtein/Shortest.antt =====
-- The distance is that of the shortest sequence of edits.
use mathlib.Core.List.{reverse, reverse-append, reverse-reverse}
use clang_uml.Prelude.{
  ℕ, suc, ◌+◌, ◌≤◌, List, [], ◌∷◌, ◌++◌, ◌≡◌, refl, sym, ap, ◌∙◌, arith, length, append_assoc,
  append-nil,
}
use Prim.Native.Nat.{max}
use mathlib.Core.Path.{subst}
use clang_uml.Util.Levenshtein.{fill_row, first_row, fill_rows, last, levenshtein_distance}
use clang_uml.Util.Levenshtein.Edits.{
  Edits, fewest, fewest-le, Edits-fewest, Edits-reverse, Edits-length, fewest-reverse_le,
}

-- A row of the table for the bytes `p` of the left text, the last one first, behind the cell for the bytes
-- `seen` of the right text.
abbrev row_behind : List ℕ → List ℕ → List ℕ → List ℕ
row_behind p seen [] = []
row_behind p seen (y ∷ ys) = fewest p (y ∷ seen) ∷ row_behind p (y ∷ seen) ys

fill_row_lem :
    (x : ℕ) (p seen ys : List ℕ)
    → fill_row x ys (fewest p seen) (fewest (x ∷ p) seen) (row_behind p seen ys)
      ≡ row_behind (x ∷ p) seen ys
unfolding fill_row fewest
fill_row_lem x p seen [] = refl
fill_row_lem x p seen (y ∷ ys) =
    ap (λ l. fewest (x ∷ p) (y ∷ seen) ∷ l) (fill_row_lem x p (y ∷ seen) ys)

first_row_lem :
    (j : ℕ) (seen ys : List ℕ)
    → j ≡ length seen
    → first_row j ys ≡ fewest [] seen ∷ row_behind [] seen ys
unfolding fewest
first_row_lem j seen [] e = ap (λ k. k ∷ []) e
first_row_lem j seen (y ∷ ys) e =
    ap (λ l. j ∷ l) (first_row_lem (suc j) (y ∷ seen) ys (omega (arith, e)))
    ∙ ap (λ k. k ∷ suc (length seen) ∷ row_behind [] (y ∷ seen) ys) e

reverse-append_cons : (x : ℕ) (left p : List ℕ) → reverse left ++ x ∷ p ≡ reverse (x ∷ left) ++ p
reverse-append_cons x left p =
    sym (ap (λ l. l ++ p) (reverse-append (x ∷ []) left) ∙ append_assoc (reverse left) (x ∷ []) p)

fill_rows_lem :
    (left p right : List ℕ) (i : ℕ)
    → i ≡ suc (length p)
    → fill_rows i left right (fewest p [] ∷ row_behind p [] right)
      ≡ fewest (reverse left ++ p) [] ∷ row_behind (reverse left ++ p) [] right
unfolding fill_rows fewest
fill_rows_lem [] p right i e = refl
fill_rows_lem (x ∷ left) p right i e =
    ap (fill_rows (suc i) left right) (
      ap (λ k. k ∷ fill_row x right (fewest p []) k (row_behind p [] right)) e
      ∙ ap (λ l. fewest (x ∷ p) [] ∷ l) (fill_row_lem x p [] right))
    ∙ fill_rows_lem left (x ∷ p) right (suc i) (omega (arith, e))
    ∙ ap (λ q. fewest q [] ∷ row_behind q [] right) (reverse-append_cons x left p)

last-row_behind :
    (p seen ys : List ℕ)
    → last (fewest p seen ∷ row_behind p seen ys) ≡ fewest p (reverse ys ++ seen)
last-row_behind p seen [] = refl
last-row_behind p seen (y ∷ ys) =
    last-row_behind p (y ∷ seen) ys ∙ ap (fewest p) (reverse-append_cons y ys seen)

levenshtein_distance_lem :
    (left right : List ℕ) → levenshtein_distance left right ≡ fewest (reverse left) (reverse right)
unfolding levenshtein_distance
levenshtein_distance_lem left right =
    ap (λ row. last (fill_rows 1 left right row)) (first_row_lem 0 [] right refl)
    ∙ ap last (fill_rows_lem left [] right 1 refl)
    ∙ ap (λ p. last (fewest p [] ∷ row_behind p [] right)) (append-nil (reverse left))
    ∙ last-row_behind (reverse left) [] right
    ∙ ap (fewest (reverse left)) (append-nil (reverse right))

-- The distance of two texts is the number of edits in some sequence of edits that makes the one of the
-- other, and no such sequence has fewer.
pub levenshtein_distance-Edits :
    (left right : List ℕ)
    → Edits left right (levenshtein_distance left right)
      × ((n : ℕ) → Edits left right n → levenshtein_distance left right ≤ n)
levenshtein_distance-Edits left right = (
  rw (levenshtein_distance_lem left right) (
      subst (λ a. Edits a right (fewest (reverse left) (reverse right))) (reverse-reverse left)
        (subst (λ b. Edits (reverse (reverse left)) b (fewest (reverse left) (reverse right)))
          (reverse-reverse right) (Edits-reverse (Edits-fewest (reverse left) (reverse right))))),
  λ n e. rw (levenshtein_distance_lem left right) (fewest-le (Edits-reverse e)),
)

-- The distance is at least the difference of the lengths of the texts and at most the longer length.
pub levenshtein_distance_bounds :
    (left right : List ℕ)
    → (length left ≤ length right + levenshtein_distance left right)
      × (length right ≤ length left + levenshtein_distance left right)
      × (levenshtein_distance left right ≤ max (length left) (length right))
levenshtein_distance_bounds left right =
    let (e, least) = levenshtein_distance-Edits left right in
    let (l, r) = Edits-length e in
    (l, r, rw (levenshtein_distance_lem left right) (fewest-reverse_le left right))
