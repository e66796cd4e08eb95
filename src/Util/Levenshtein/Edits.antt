-- ===== src/Util/Levenshtein/Edits.antt =====
-- A sequence of edits that makes one text of another, and the number of them.
use mathlib.Core.List.{reverse, reverse-append}
use clang_uml.Prelude.{
  ℕ, suc, ◌+◌, ◌≤◌, min, List, [], ◌∷◌, ◌++◌, append-nil, ◌≡◌, refl, sym, ap, ◌∙◌, ◌⊎◌, arith,
  length, length-append, inl, inr,
}
use mathlib.Core.Path.{subst}
use Prim.Native.Nat.{max}
use clang_uml.Util.Levenshtein.{substitution_cost, cell}

-- Each byte is removed, inserted, replaced or kept.
pub data Edits : List ℕ → List ℕ → ℕ → Type 0 where
  none_left : Edits [] [] 0
  remove : {a b : List ℕ} {n : ℕ} (x : ℕ) → Edits a b n → Edits (x ∷ a) b (n + 1)
  insert : {a b : List ℕ} {n : ℕ} (y : ℕ) → Edits a b n → Edits a (y ∷ b) (n + 1)
  substitute :
      {a b : List ℕ} {n : ℕ} (x y : ℕ)
      → Edits a b n
      → Edits (x ∷ a) (y ∷ b) (n + substitution_cost x y)

-- The fewest edits, by recursion.
unfoldable pub fewest : List ℕ → List ℕ → ℕ
fewest [] b = length b
fewest (x ∷ a) [] = suc (length a)
fewest (x ∷ a) (y ∷ b) = cell x y (fewest a (y ∷ b)) (fewest (x ∷ a) b) (fewest a b)

fewest-nil : (a : List ℕ) → fewest a [] ≡ length a
unfolding fewest
fewest-nil [] = refl
fewest-nil (x ∷ a) = refl

remove-le : (x : ℕ) (a b : List ℕ) → fewest (x ∷ a) b ≤ fewest a b + 1
unfolding fewest
remove-le x a [] = omega (arith, fewest-nil a)
remove-le x a (y ∷ b) = omega arith

insert-le : (y : ℕ) (a b : List ℕ) → fewest a (y ∷ b) ≤ fewest a b + 1
unfolding fewest
insert-le y [] b = omega arith
insert-le y (x ∷ a) b = omega arith

-- No sequence of edits is shorter.
pub fewest-le : {a b : List ℕ} {n : ℕ} → Edits a b n → fewest a b ≤ n
unfolding fewest
fewest-le none_left = omega arith
fewest-le (remove {a} {b} {n} x e) = omega (arith, fewest-le e, remove-le x a b)
fewest-le (insert {a} {b} {n} y e) = omega (arith, fewest-le e, insert-le y a b)
fewest-le (substitute {a} {b} {n} x y e) = omega (arith, fewest-le e)

min_cases : (a b : ℕ) → (min a b ≡ a) ⊎ (min a b ≡ b)
min_cases a b = ground arith

cell_cases :
    (x y above left diagonal : ℕ)
    → (cell x y above left diagonal ≡ above + 1)
      ⊎ ((cell x y above left diagonal ≡ left + 1)
          ⊎ (cell x y above left diagonal ≡ diagonal + substitution_cost x y))
cell_cases x y above left diagonal =
    elim (min_cases (min (above + 1) (left + 1)) (diagonal + substitution_cost x y)) [
      | inr e ↦ inr (inr e)
      | inl e ↦ elim (min_cases (above + 1) (left + 1)) [
        | inl e' ↦ inl (e ∙ e')
        | inr e' ↦ inr (inl (e ∙ e'))
      ]
    ]

all_inserted : (b : List ℕ) → Edits [] b (length b)
all_inserted [] = none_left
all_inserted (y ∷ b) =
    subst (Edits [] (y ∷ b)) (let e : length b + 1 ≡ suc (length b) = omega arith in e)
      (insert y (all_inserted b))

all_removed : (a : List ℕ) → Edits a [] (length a)
all_removed [] = none_left
all_removed (x ∷ a) =
    subst (Edits (x ∷ a) []) (let e : length a + 1 ≡ suc (length a) = omega arith in e)
      (remove x (all_removed a))

-- And one is as short.
pub Edits-fewest : (a b : List ℕ) → Edits a b (fewest a b)
unfolding fewest
Edits-fewest [] b = all_inserted b
Edits-fewest (x ∷ a) [] = all_removed (x ∷ a)
Edits-fewest (x ∷ a) (y ∷ b) =
    let above = Edits-fewest a (y ∷ b) in
    let left = Edits-fewest (x ∷ a) b in
    let diagonal = Edits-fewest a b in
    elim (cell_cases x y (fewest a (y ∷ b)) (fewest (x ∷ a) b) (fewest a b)) [
      | inl e ↦ subst (Edits (x ∷ a) (y ∷ b)) (sym e) (remove x above)
      | inr (inl e) ↦ subst (Edits (x ∷ a) (y ∷ b)) (sym e) (insert y left)
      | inr (inr e) ↦ subst (Edits (x ∷ a) (y ∷ b)) (sym e) (substitute x y diagonal)
    ]

-- Edits of the parts of two texts are edits of the texts.
Edits-append :
    {a b c d : List ℕ} {n k : ℕ} → Edits a b n → Edits c d k → Edits (a ++ c) (b ++ d) (n + k)
Edits-append {c} {d} {k} none_left f = subst (Edits c d) (let r : k ≡ 0 + k = omega arith in r) f
Edits-append {c} {d} {k} (remove {a} {b} {n} x e) f =
    subst (Edits ((x ∷ a) ++ c) (b ++ d)) (let r : n + k + 1 ≡ n + 1 + k = omega arith in r)
      (remove x (Edits-append e f))
Edits-append {c} {d} {k} (insert {a} {b} {n} y e) f =
    subst (Edits (a ++ c) ((y ∷ b) ++ d)) (let r : n + k + 1 ≡ n + 1 + k = omega arith in r)
      (insert y (Edits-append e f))
Edits-append {c} {d} {k} (substitute {a} {b} {n} x y e) f =
    let cost = substitution_cost x y in
    subst (Edits ((x ∷ a) ++ c) ((y ∷ b) ++ d))
      (let r : n + k + cost ≡ n + cost + k = omega arith in r) (substitute x y (Edits-append e f))

Edits-same :
    {a b a' b' : List ℕ} {n n' : ℕ} → a' ≡ a → b' ≡ b → n' ≡ n → Edits a b n → Edits a' b' n'
Edits-same p q r e = rw (p, q, r) e

reverse-cons : (x : ℕ) (a : List ℕ) → reverse (x ∷ a) ≡ reverse a ++ x ∷ []
reverse-cons x a = reverse-append (x ∷ []) a

-- They may be read backwards.
pub Edits-reverse : {a b : List ℕ} {n : ℕ} → Edits a b n → Edits (reverse a) (reverse b) n
Edits-reverse none_left = none_left
Edits-reverse (remove {a} {b} {n} x e) =
    Edits-same (reverse-cons x a) (sym (append-nil (reverse b)))
      (let r : n + 1 ≡ n + (0 + 1) = omega arith in r)
      (Edits-append (Edits-reverse e) (remove x none_left))
Edits-reverse (insert {a} {b} {n} y e) =
    Edits-same (sym (append-nil (reverse a))) (reverse-cons y b)
      (let r : n + 1 ≡ n + (0 + 1) = omega arith in r)
      (Edits-append (Edits-reverse e) (insert y none_left))
Edits-reverse (substitute {a} {b} {n} x y e) =
    let cost = substitution_cost x y in
    Edits-same (reverse-cons x a) (reverse-cons y b)
      (let r : n + cost ≡ n + (0 + cost) = omega arith in r)
      (Edits-append (Edits-reverse e) (substitute x y none_left))

-- Edits change the length by their number at most.
pub Edits-length :
    {a b : List ℕ} {n : ℕ} → Edits a b n → (length a ≤ length b + n) × (length b ≤ length a + n)
Edits-length none_left = (omega arith, omega arith)
Edits-length (remove x e) = let h = Edits-length e in (omega (arith, h.0), omega (arith, h.1))
Edits-length (insert y e) = let h = Edits-length e in (omega (arith, h.0), omega (arith, h.1))
Edits-length (substitute x y e) = let h = Edits-length e in (omega (arith, h.0), omega (arith, h.1))

cost-le : (x y : ℕ) → substitution_cost x y ≤ 1
cost-le x y = ground arith

-- As many edits as the longer text has bytes are enough.
pub fewest-le_max : (a b : List ℕ) → fewest a b ≤ max (length a) (length b)
unfolding fewest
fewest-le_max [] b = omega arith
fewest-le_max (x ∷ a) [] = omega arith
fewest-le_max (x ∷ a) (y ∷ b) = omega (arith, fewest-le_max a b, cost-le x y)

length-reverse : (a : List ℕ) → length (reverse a) ≡ length a
length-reverse [] = refl
length-reverse (x ∷ a) =
    ap length (reverse-cons x a)
    ∙ length-append (reverse a) (x ∷ [])
    ∙ omega (arith, length-reverse a)

pub fewest-reverse_le : (a b : List ℕ) → fewest (reverse a) (reverse b) ≤ max (length a) (length b)
fewest-reverse_le a b =
    omega (arith, fewest-le_max (reverse a) (reverse b), length-reverse a, length-reverse b)
