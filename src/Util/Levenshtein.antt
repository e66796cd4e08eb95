-- ===== src/Util/Levenshtein.antt =====
-- `levenshtein_distance` (src/util/levenshtein.cc): the table is made row by row, and a row cell by cell, each
-- from the cells above, to the left and between them. The loops start at 1, so `i - 1` and `j - 1` are exact.
pub mod Edits
pub mod Shortest
use clang_uml.Prelude.{
  ℕ, zero, suc, ◌+◌, min, Bool, true, false, List, [], ◌∷◌, ◌==◌, if◌then◌else◌, length,
}

abbrev pub substitution_cost : ℕ → ℕ → ℕ
substitution_cost x y = if x == y then 0 else 1

-- dp[i][j] of dp[i - 1][j], dp[i][j - 1] and dp[i - 1][j - 1].
abbrev pub cell : ℕ → ℕ → ℕ → ℕ → ℕ → ℕ
cell x y above left diagonal = min (min (above + 1) (left + 1)) (diagonal + substitution_cost x y)

-- The loop over `j`: the row behind the cell `left`, below the row that begins with `diagonal`.
unfoldable pub fill_row : ℕ → List ℕ → (diagonal left : ℕ) → List ℕ → List ℕ
fill_row x (y ∷ ys) diagonal left (above ∷ row) =
    let c = cell x y above left diagonal in c ∷ fill_row x ys above c row
fill_row x _ diagonal left _ = []

-- dp[0][j] = j
abbrev pub first_row : ℕ → List ℕ → List ℕ
first_row j [] = j ∷ []
first_row j (_ ∷ ys) = j ∷ first_row (suc j) ys

abbrev pub next_row : ℕ → ℕ → List ℕ → List ℕ → List ℕ
unfolding fill_row
next_row i x right [] = []
next_row i x right (diagonal ∷ row) = i ∷ fill_row x right diagonal i row

-- The loop over `i`, whose first cell is `i`.
unfoldable pub fill_rows : ℕ → List ℕ → List ℕ → List ℕ → List ℕ
unfolding fill_row
fill_rows i [] right row = row
fill_rows i (x ∷ left) right row = fill_rows (suc i) left right (next_row i x right row)

abbrev pub last : List ℕ → ℕ
last [] = 0
last (x ∷ []) = x
last (x ∷ y ∷ xs) = last (y ∷ xs)

-- dp[m][n]
unfoldable pub levenshtein_distance : List ℕ → List ℕ → ℕ
unfolding fill_rows
levenshtein_distance left right = last (fill_rows 1 left right (first_row 0 right))
