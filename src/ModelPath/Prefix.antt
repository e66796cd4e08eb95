-- ===== src/ModelPath/Prefix.antt =====
-- What the comparisons of paths decide.
use clang_uml.Prelude.{
  ℕ, zero, suc, ◌≤◌, true, List, [], ◌∷◌, ◌++◌, String, ◌≡◌, refl, sym, ap, ◌∙◌, ◌↔◌, arith, length,
  take, drop, str_eq, eq_iff, Bool-cases, inl, inr, length-append,
}
use mathlib.Core.List.{reverse, reverse-append, reverse-cons, reverse-reverse}
use clang_uml.ModelPath.{
  tokens_eq, matches_here, search, vector_starts_with, vector_ends_with, common_names,
}

matches_here-append : (xs ys : List String) → matches_here (xs ++ ys) xs ≡ true
unfolding matches_here
matches_here-append [] ys = refl
matches_here-append (x ∷ xs) ys = rw ((eq_iff x x).1 refl, matches_here-append xs ys) refl

matches_here-rest :
    (col prefix : List String)
    → matches_here col prefix ≡ true
    → col ≡ prefix ++ drop (length prefix) col
unfolding matches_here
matches_here-rest col [] h = refl
matches_here-rest [] (p ∷ prefix) h = cc
matches_here-rest (c ∷ col) (p ∷ prefix) h =
    ground (arith, matches_here-rest col prefix, eq_iff c p)

matches_here-length :
    (col prefix : List String) → matches_here col prefix ≡ true → length prefix ≤ length col
unfolding matches_here
matches_here-length col [] h = omega arith
matches_here-length [] (p ∷ prefix) h = cc
matches_here-length (c ∷ col) (p ∷ prefix) h = ground (arith, matches_here-length col prefix)

-- The search finds its match at the start when one stands there.
starts_with-matches :
    (col prefix : List String) → vector_starts_with col prefix ≡ matches_here col prefix
unfolding vector_starts_with
starts_with-matches [] [] = refl
starts_with-matches [] (p ∷ prefix) = ground arith
starts_with-matches (c ∷ col) prefix = elim (Bool-cases (matches_here (c ∷ col) prefix)) [
  | inl here ↦ rw (here, search) (ground (arith, matches_here-length (c ∷ col) prefix here))
  | inr no_match ↦ rw (no_match, search) (ground arith)
]

pub vector_starts_with-append : (xs ys : List String) → vector_starts_with (xs ++ ys) xs ≡ true
vector_starts_with-append xs ys = starts_with-matches (xs ++ ys) xs ∙ matches_here-append xs ys

pub vector_starts_with-rest :
    (col prefix : List String)
    → vector_starts_with col prefix ≡ true
    → col ≡ prefix ++ drop (length prefix) col
vector_starts_with-rest col prefix h =
    matches_here-rest col prefix (sym (starts_with-matches col prefix) ∙ h)

pub tokens_eq_iff : (xs ys : List String) → (tokens_eq xs ys ≡ true) ↔ (xs ≡ ys)
unfolding tokens_eq
tokens_eq_iff [] [] = (λ _. refl, λ _. refl)
tokens_eq_iff [] (y ∷ ys) = (λ h. cc, λ h. cc)
tokens_eq_iff (x ∷ xs) [] = (λ h. cc, λ h. cc)
tokens_eq_iff (x ∷ xs) (y ∷ ys) = (
  λ h. ground (arith, eq_iff x y, tokens_eq_iff xs ys, h),
  λ h. ground (arith, eq_iff x y, tokens_eq_iff xs ys, h),
)

take_all : (xs ys : List String) → take (length xs) (xs ++ ys) ≡ xs
take_all [] ys = refl
take_all (x ∷ xs) ys = ap (λ l. x ∷ l) (take_all xs ys)

take-drop : (n : ℕ) (xs : List String) → take n xs ++ drop n xs ≡ xs
take-drop zero xs = refl
take-drop (suc n) [] = refl
take-drop (suc n) (x ∷ xs) = ap (λ l. x ∷ l) (take-drop n xs)

length-reverse : (xs : List String) → length (reverse xs) ≡ length xs
length-reverse [] = refl
length-reverse (x ∷ xs) =
    rw (reverse-cons x xs) (omega (arith, length-append (reverse xs) (x ∷ []), length-reverse xs))

take_suffix : (xs ys : List String) → take (length ys) (reverse (xs ++ ys)) ≡ reverse ys
take_suffix xs ys =
    ap (λ n. take n (reverse (xs ++ ys))) (sym (length-reverse ys))
    ∙ ap (take (length (reverse ys))) (reverse-append xs ys)
    ∙ take_all (reverse ys) (reverse xs)

pub vector_ends_with-append : (xs ys : List String) → vector_ends_with (xs ++ ys) ys ≡ true
unfolding vector_ends_with
vector_ends_with-append xs ys =
    rw ((tokens_eq_iff (reverse ys) _).1 (sym (take_suffix xs ys)))
      (ground (arith, length-append xs ys))

pub vector_ends_with-rest :
    (col suffix : List String)
    → vector_ends_with col suffix ≡ true
    → (rest : List String) × (col ≡ rest ++ suffix)
unfolding vector_ends_with
vector_ends_with-rest col suffix h =
    elim (Bool-cases (tokens_eq (reverse suffix) (take (length suffix) (reverse col)))) [
      | inr other ↦ let impossible : ⊥ = ground (arith, rw other at h) in elim impossible [ ]
      | inl same ↦
          let front = drop (length suffix) (reverse col) in
          let split : reverse suffix ++ front ≡ reverse col =
            rw ((tokens_eq_iff (reverse suffix) (take (length suffix) (reverse col))).0 same)
              (take-drop (length suffix) (reverse col)) in
          (
            reverse front,
            sym (reverse-reverse col)
                ∙ ap reverse (sym split)
                ∙ reverse-append (reverse suffix) front
                ∙ ap (λ l. reverse front ++ l) (reverse-reverse suffix),
          )
    ]

-- The common names start both lists, and nothing longer does.
pub common_names-starts :
    (xs ys : List String)
    → (xs ≡ common_names xs ys ++ drop (length (common_names xs ys)) xs)
      × (ys ≡ common_names xs ys ++ drop (length (common_names xs ys)) ys)
unfolding common_names
common_names-starts [] ys = (refl, refl)
common_names-starts (x ∷ xs) [] = (refl, refl)
common_names-starts (x ∷ xs) (y ∷ ys) =
    let h = common_names-starts xs ys in
    elim (Bool-cases (str_eq x y)) [
      | inl same ↦
          rw (same, common_names)
            (
              ap (λ l. x ∷ l) h.0,
              ap (λ l. y ∷ l) h.1
                  ∙ ap (λ z. z ∷ (common_names xs ys ++ drop (length (common_names xs ys)) ys))
                      (sym ((eq_iff x y).0 same)),
            )
      | inr other ↦ rw (other, common_names) (refl, refl)
    ]

pub common_names-greatest :
    (zs xs ys : List String) → common_names (zs ++ xs) (zs ++ ys) ≡ zs ++ common_names xs ys
unfolding common_names
common_names-greatest [] xs ys = refl
common_names-greatest (z ∷ zs) xs ys =
    rw ((eq_iff z z).1 refl) (ap (λ l. z ∷ l) (common_names-greatest zs xs ys))
