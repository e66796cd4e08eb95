-- ===== src/Sequence/Blocks/Finalized.antt =====
-- The loop of `finalize` over any messages, balanced or not: an outcome for each.
use clang_uml.Prelude.{
  ℕ, zero, suc, ◌+◌, Bool, true, false, Option, none, some, List, [], ◌∷◌, ◌++◌, ◌≡◌, refl, ap, ◌∙◌,
  ◌⊎◌, arith, if◌then◌else◌, Bool-cases, inl, inr, length, ◌>>=◌, All, All-append,
}
use clang_uml.Sequence.Message.{Message}
use clang_uml.Sequence.Diagram.{Diagram}
use clang_uml.Sequence.Blocks.{
  is_begin_block_message, is_end_block_message, with_return_type, BlockState, block_step,
  block_steps, bottom,
}
use clang_uml.Sequence.Blocks.Statements.{contents}
use clang_uml.Sequence.Blocks.Pruning.{
  at_level, step_begin, step_single, step_end, step_end_below, steps_after, steps_fault, steps_nil,
}

-- No end message comes without an open block, with `n` blocks open in front.
unfoldable pub balanced : ℕ → List Message → Bool
balanced n [] = true
balanced n (m ∷ ms) = elim (is_begin_block_message m.type) [
  | true ↦ balanced (n + 1) ms
  | false ↦ elim (is_end_block_message m.type) [
    | true ↦ elim n [ zero ↦ false | suc k ↦ balanced k ms ]
    | false ↦ balanced n ms
  ]
]

pub balanced_nil : (n : ℕ) → balanced n [] ≡ true
unfolding balanced
balanced_nil n = refl

pub balanced_cases :
    (n : ℕ) (m : Message) (ms : List Message)
    → balanced n (m ∷ ms) ≡ (
        if is_begin_block_message m.type
        then balanced (n + 1) ms
        else if is_end_block_message m.type
        then elim n [ zero ↦ false | suc k ↦ balanced k ms ]
        else balanced n ms)
unfolding balanced
balanced_cases zero m ms = ground arith
balanced_cases (suc n) m ms = ground arith

module _ (d : Diagram) (P : Message → Type 0)
    (stable : (m : Message) → P m → P (with_return_type d m)) where
  abbrev pub Outcome : Option (List Message) → Bool → Type 0
  Outcome r b =
      ((r ≡ none) × (b ≡ false)) ⊎ ((out : List Message) × (r ≡ some out) × (b ≡ true) × All P out)

  abbrev pub rest_of : BlockState → List Message → Option (List Message)
  rest_of s ms = block_steps d s ms >>= λ t. bottom t.stack

  bottom_lem :
      (back : List Message) (below : List (List Message))
      → All P back
      → All (All P) below
      → (out : List Message) × (bottom (back ∷ below) ≡ some out) × All P out
  bottom_lem back [] h hs = (back, refl, h)
  bottom_lem back (s ∷ below) h hs = bottom_lem s below hs.0 hs.1

  advance :
      (s s' : BlockState) (m : Message) (ms : List Message) (b : Bool)
      → block_step d s m ≡ some s'
      → Outcome (rest_of s' ms) b
      → Outcome (rest_of s (m ∷ ms)) b
  advance s s' m ms b e o = rw (steps_after d s s' m ms e) o

  All-if :
      (b : Bool) (xs ys : List Message) → All P xs → All P ys → All P (if b then ys ++ xs else ys)
  All-if true xs ys hx hy = All-append P ys xs hy hx
  All-if false xs ys hx hy = hy

  abbrev Outcomes : List Message → Type 0
  Outcomes ms =
      (level : ℕ) (back : List Message) (below : List (List Message))
      → length below ≡ level
      → All P back
      → All (All P) below
      → All P ms
      → Outcome (rest_of (at_level level back below) ms) (balanced level ms)

  at_end :
      (m : Message) (ms : List Message)
      → Outcomes ms
      → (level : ℕ) (back : List Message) (below : List (List Message)) → length below ≡ level
      → All P back
      → All (All P) below
      → P m
      → All P ms
      → is_end_block_message m.type ≡ true
      → Outcome
          (rest_of (at_level level back below) (m ∷ ms))
          (elim level [ zero ↦ false | suc k ↦ balanced k ms ])
  at_end m ms go zero back [] h pb pbs pm pms e = inl (
    ap (λ o. o >>= λ t. bottom t.stack)
        (steps_fault d (at_level 0 back []) m ms (step_end_below d back m e)),
    refl,
  )
  at_end m ms go zero back (s ∷ below) h pb pbs pm pms e = absurd (omega arith)
  at_end m ms go (suc k) back [] h pb pbs pm pms e = absurd (omega arith)
  at_end m ms go (suc k) back (s ∷ below) h pb pbs pm pms e =
      advance (at_level (suc k) back (s ∷ below)) _ m ms _
        (step_end d (suc k) k back s below m refl (omega arith) e)
        (go k _ below (omega arith)
          (All-if (contents (back ++ m ∷ [])) (back ++ m ∷ []) s
            (All-append P back (m ∷ []) pb (pm, tt)) pbs.0)
          pbs.1 pms)

  pub outcome :
      (ms : List Message) (level : ℕ) (back : List Message) (below : List (List Message))
      → length below ≡ level
      → All P back
      → All (All P) below
      → All P ms
      → Outcome (rest_of (at_level level back below) ms) (balanced level ms)
  outcome [] level back below h pb pbs pm =
      let (out, e, p) = bottom_lem back below pb pbs in
      inr (
        out,
        ap (λ o. o >>= λ t. bottom t.stack) (steps_nil d (at_level level back below)) ∙ e,
        balanced_nil level,
        p,
      )
  outcome (m ∷ ms) level back below h pb pbs pm =
      elim (Bool-cases (is_begin_block_message m.type)) [
        | inl b ↦
            rw (balanced_cases level m ms, b)
              (advance (at_level level back below) _ m ms _
                (step_begin d (at_level level back below) m b)
                (outcome ms (level + 1) (m ∷ []) (back ∷ below) (omega arith) (pm.0, tt) (pb, pbs)
                  pm.1))
        | inr b ↦ elim (Bool-cases (is_end_block_message m.type)) [
          | inl e ↦
              rw (balanced_cases level m ms, b, e)
                (at_end m ms (outcome ms) level back below h pb pbs pm.0 pm.1 e)
          | inr e ↦
              rw (balanced_cases level m ms, b, e)
                (advance (at_level level back below) _ m ms _
                  (step_single d level back below m (b, e))
                  (outcome ms level _ below h
                    (All-append P back (with_return_type d m ∷ []) pb (stable m pm.0, tt)) pbs
                    pm.1))
        ]
      ]
