-- ===== src/Sequence/Blocks/Included.antt =====
-- Where the calls go that `finalize` leaves.
use clang_uml.Prelude.{
  ℕ, Bool, true, false, Option, none, some, List, [], ◌∷◌, ◌≡◌, refl, ap, sym, ◌∙◌, arith,
  Option-cases, All-mono, inl, inr, All, All-erase_if, erase_if,
}
use mathlib.Core.Path.{subst}
use clang_uml.Sequence.Message.{Message, Activity, Participant}
use clang_uml.Enums.{MessageType, ◌is_message◌}
use clang_uml.Sequence.Diagram.{Diagram, get_participant}
use clang_uml.Sequence.Blocks.{
  is_excluded_call, with_return_type, remove_empty_blocks, finalize_activity, finalize_all,
  finalize,
}
use clang_uml.Sequence.Blocks.Statements.{type-with_return_type, to-with_return_type}
use clang_uml.Prelude.{>>=-eq-some, some-injective}
use clang_uml.Sequence.Blocks.Finalized.{balanced, outcome}
use clang_uml.Sequence.Blocks.Guarantees.{is_defined, remove_empty_blocks-is_defined}

module _ (included : Participant → Bool) (d : Diagram) where
  abbrev pub IsIncluded : Message → Type 0
  IsIncluded m = is_excluded_call included d m ≡ false

  IsIncluded-with_return_type : (m : Message) → IsIncluded m → IsIncluded (with_return_type d m)
  unfolding is_excluded_call
  IsIncluded-with_return_type m h =
      ground (arith, type-with_return_type d m, to-with_return_type d m)

  remove_empty_blocks-IsIncluded :
      (ms out : List Message)
      → All IsIncluded ms
      → remove_empty_blocks d ms ≡ some out
      → All IsIncluded out
  unfolding remove_empty_blocks
  remove_empty_blocks-IsIncluded ms out h e =
      elim (outcome d IsIncluded IsIncluded-with_return_type ms 0 [] [] refl tt tt h) [
        | inl (bad, _) ↦ (let clash : none ≡ some out = sym bad ∙ e in cc)
        | inr (out', good, _, p) ↦ subst (All IsIncluded) (some-injective (sym good ∙ e)) p
      ]

  abbrev pub AllIncluded : List (ℕ × Activity) → Type 0
  AllIncluded activities = All (λ entry. All IsIncluded entry.1.messages) activities

  finalize_activity-IsIncluded :
      (a a' : Activity) → finalize_activity included d a ≡ some a' → All IsIncluded a'.messages
  unfolding finalize_activity
  finalize_activity-IsIncluded a a' e =
      let (ms, made, done) =
        >>=-eq-some (remove_empty_blocks d (erase_if (is_excluded_call included d) a.messages)) _
          e in
      let same : a'.messages ≡ ms = ap (λ (x : Activity). x.messages) (sym (some-injective done)) in
      rw same (
        remove_empty_blocks-IsIncluded _ ms (All-erase_if (is_excluded_call included d) a.messages)
          made)

  finalize_all-AllIncluded :
      (as_ as' : List (ℕ × Activity)) → finalize_all included d as_ ≡ some as' → AllIncluded as'
  unfolding finalize_all
  finalize_all-AllIncluded [] as' e = subst AllIncluded (some-injective e) tt
  finalize_all-AllIncluded ((id, a) ∷ rest) as' e =
      let (a', made, e₁) = >>=-eq-some (finalize_activity included d a) _ e in
      let (rest', made', e₂) = >>=-eq-some (finalize_all included d rest) _ e₁ in
      subst AllIncluded (some-injective e₂)
        (finalize_activity-IsIncluded a a' made, finalize_all-AllIncluded rest rest' made')

finalize-AllIncluded :
    (included : Participant → Bool) (d d' : Diagram)
    → finalize included d ≡ some d'
    → AllIncluded included d d'.activities
unfolding finalize
finalize-AllIncluded included d d' e =
    let (activities, made, done) = >>=-eq-some (finalize_all included d d.activities) _ e in
    subst (AllIncluded included d) (ap (λ (x : Diagram). x.activities) (some-injective done))
      (finalize_all-AllIncluded included d d.activities activities made)

-- No block of an activity is ended that was not begun.
abbrev pub IsBalanced : (Participant → Bool) → Diagram → ℕ × Activity → Type 0
IsBalanced included d entry =
    balanced 0 (erase_if (is_excluded_call included d) entry.1.messages) ≡ true

finalize_all-is_defined :
    (included : Participant → Bool) (d : Diagram) (as_ : List (ℕ × Activity))
    → All (IsBalanced included d) as_
    → is_defined (finalize_all included d as_) ≡ true
unfolding finalize_all finalize_activity
finalize_all-is_defined included d [] h = refl
finalize_all-is_defined included d ((id, a) ∷ rest) h = ground (
  arith,
  finalize_all-is_defined included d rest h.1,
  remove_empty_blocks-is_defined d (erase_if (is_excluded_call included d) a.messages),
  h.0,
)

defined_some {ℓ} : {A : Type ℓ} (o : Option A) → is_defined o ≡ true → (a : A) × (o ≡ some a)
defined_some none h = cc
defined_some (some a) h = (a, refl)

finalize-is_defined :
    (included : Participant → Bool) (d : Diagram)
    → All (IsBalanced included d) d.activities
    → is_defined (finalize included d) ≡ true
unfolding finalize
finalize-is_defined included d h = ground (arith, finalize_all-is_defined included d d.activities h)

-- Where a message may go: a call, to a participant that is there, is not skipped and is included.
abbrev pub GoesToIncluded : (Participant → Bool) → Diagram → Message → Type 0
GoesToIncluded included d m =
    (m.type is_message MessageType.k_call) ≡ true
    → (p : Participant) × (get_participant d m.to ≡ some p) × (p.skip ≡ false) × (included p ≡ true)

included_goes :
    (included : Participant → Bool) (d : Diagram) (m : Message)
    → is_excluded_call included d m ≡ false
    → GoesToIncluded included d m
unfolding is_excluded_call
included_goes included d m h call = elim (Option-cases (get_participant d m.to)) [
  | inl gone ↦ let impossible : ⊥ = ground (arith, gone, call, h) in elim impossible [ ]
  | inr (p, there) ↦ (p, there, ground (arith, there, call, h), ground (arith, there, call, h))
]

-- If in each activity, without the calls that are excluded, no block is ended that was not begun,
-- `finalize` gives a diagram, and in it every call of every activity goes to a participant that is
-- there, is not skipped and is included by the filter.
pub finalize_lem :
    (included : Participant → Bool) (d : Diagram)
    → All (IsBalanced included d) d.activities
    → (d' : Diagram) × (finalize included d ≡ some d')
      × All (λ entry. All (GoesToIncluded included d) entry.1.messages) d'.activities
finalize_lem included d h =
    let (d', e) = defined_some (finalize included d) (finalize-is_defined included d h) in
    (
      d',
      e,
      All-mono _ _ d'.activities (λ entry. All-mono _ _ entry.1.messages (included_goes included d))
          (finalize-AllIncluded included d d' e),
    )
