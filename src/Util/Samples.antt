-- ===== src/Util/Samples.antt =====
-- Two texts as lists of their bytes.
use clang_uml.Prelude.{ℕ, ◌+◌, ◌≤◌, List, [], ◌∷◌, ◌≡◌, refl, length}
use Prim.Native.Nat.{max}
use clang_uml.Util.Levenshtein.{levenshtein_distance}
use clang_uml.Util.Levenshtein.Edits.{Edits}
use clang_uml.Util.Levenshtein.Shortest.{levenshtein_distance-Edits, levenshtein_distance_bounds}

abbrev kitten : List ℕ
kitten = 107 ∷ 105 ∷ 116 ∷ 116 ∷ 101 ∷ 110 ∷ []

abbrev sitting : List ℕ
sitting = 115 ∷ 105 ∷ 116 ∷ 116 ∷ 105 ∷ 110 ∷ 103 ∷ []

distance_of_sitting : levenshtein_distance kitten sitting ≡ 3
unfolding levenshtein_distance
distance_of_sitting = refl

distance_of_empty : levenshtein_distance [] sitting ≡ 7
unfolding levenshtein_distance
distance_of_empty = refl

levenshtein_distance-Edits_example :
    Edits kitten sitting (levenshtein_distance kitten sitting)
    × ((n : ℕ) → Edits kitten sitting n → levenshtein_distance kitten sitting ≤ n)
levenshtein_distance-Edits_example = levenshtein_distance-Edits kitten sitting

levenshtein_distance_bounds_example :
    (length kitten ≤ length sitting + levenshtein_distance kitten sitting)
    × (length sitting ≤ length kitten + levenshtein_distance kitten sitting)
    × (levenshtein_distance kitten sitting ≤ max (length kitten) (length sitting))
levenshtein_distance_bounds_example = levenshtein_distance_bounds kitten sitting
