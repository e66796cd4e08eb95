-- ===== src/SequenceVisitor/Steps/Pending.antt =====
-- Messages that are kept at an expression and come into the diagram when it has been traversed.
use clang_uml.Prelude.{
  ℕ, true, some, List, [], ◌∷◌, ◌++◌, ◌≡◌, refl, arith, if◌then◌else◌, ◌==◌, ==_iff, All,
  All-append, find, insert, update, find-update, erase_key, All-insert, All-update, All-erase_key,
  find-Each, IsUnique-update, Bool-cases, Option-cases, inl, inr,
}
use clang_uml.Sequence.Message.{Message, add_message as append_message}
use clang_uml.Sequence.Diagram.{Diagram, messages_of, has_activity}
use clang_uml.Sequence.Blocks.Statements.{IsSingle}
use clang_uml.SequenceVisitor.Context.{ExprKind, call_expr}
use clang_uml.SequenceVisitor.Messages.{
  Visitor, with_diagram, with_map, ◌is_kind◌, push_message, pop_calls, pop_call_messages,
  pop_one_message, pop_message_to_diagram,
}
use clang_uml.SequenceVisitor.Emits.{
  Emits, Keeps, Emits-refl, Emits-trans, Added-single, Added-same,
}
use clang_uml.SequenceVisitor.Walk.{Place}
use clang_uml.SequenceVisitor.Steps.{
  Waits, IsPending, Step, Step-trans, Step-refl, Progress-with_diagram,
}

-- A message that is appended to the activity of its caller.
abbrev pub appended : Message → Diagram → Diagram
appended m d = record d { activities = update m.from (append_message m) d.activities }

messages_of-appended :
    (m : Message) (d : Diagram) (id : ℕ)
    → has_activity d m.from ≡ true
    → messages_of (appended m d) id
      ≡ (if id == m.from then messages_of d id ++ m ∷ [] else messages_of d id)
unfolding append_message
messages_of-appended m d id h =
    ground (arith, find-update m.from id (append_message m) d.activities, ==_iff id m.from, h)

pub appended-Emits :
    (m : Message) (d : Diagram) → IsSingle m → has_activity d m.from ≡ true → Emits d (appended m d)
appended-Emits m d i h id = elim (Bool-cases (id == m.from)) [
  | inl same ↦ rw (messages_of-appended m d id h, same) (Added-single (messages_of d id) m i)
  | inr other ↦
      rw (messages_of-appended m d id h, other)
        (Added-same (messages_of d id) (messages_of d id) refl)
]

pub appended-Keeps : (m : Message) (d : Diagram) → Keeps d (appended m d)
appended-Keeps m d = (
  λ id h. ground (arith, find-update m.from id (append_message m) d.activities, h),
  IsUnique-update m.from (append_message m) d.activities,
)

pop_calls_lem :
    (ms : List Message) (d : Diagram)
    → All IsSingle ms
    → Emits d (pop_calls ms d).0 × Keeps d (pop_calls ms d).0 × All IsSingle (pop_calls ms d).1
unfolding pop_calls
pop_calls_lem [] d h = (Emits-refl d, (λ id k. k, λ u. u), tt)
pop_calls_lem (m ∷ ms) d h = elim (Bool-cases (m.from == 0)) [
  | inl zero_caller ↦ rw zero_caller (Emits-refl d, (λ id k. k, λ u. u), h)
  | inr caller ↦ elim (Bool-cases (has_activity d m.from)) [
    | inl there ↦
        let (e, k, i) = pop_calls_lem ms (appended m d) h.1 in
        rw (caller, there)
          (
            Emits-trans d (appended m d) (pop_calls ms (appended m d)).0
                (appended-Emits m d h.0 there) e,
            (λ id x. k.0 id ((appended-Keeps m d).0 id x), λ u. k.1 ((appended-Keeps m d).1 u)),
            i,
          )
    | inr gone ↦ rw (caller, gone) (pop_calls_lem ms d h.1)
  ]
]

module _ {b : Place} (v : Visitor) where
  Step-calls :
      (calls : List (ℕ × List Message))
      → All (λ entry. All IsSingle entry.1) calls
      → Step b v (record v { call_expr_message_map = calls })
  Step-calls calls h = (
    record {
      kept = (λ id k. k, λ u. u);
      pending = λ p. (h, p.1);
      tries = λ k. k;
      switches = λ k. k;
      contexts = λ h. h;
      lambdas = refl;
      caller = λ _. refl;
    },
    Emits-refl v.diagram,
  )

  Step-with_map :
      (kind : ExprKind) (f : List (ℕ × Message) → List (ℕ × Message))
      → ((ms : List (ℕ × Message)) → All (Waits v.diagram) ms → All (Waits v.diagram) (f ms))
      → Step b v (with_map kind f v)
  Step-with_map kind f h = (
    record {
      kept = (λ id k. k, λ u. u);
      pending = λ p. (
        p.0,
        λ k. elim (Bool-cases (k is_kind kind)) [
          | inl same ↦ rw same (h (v.message_maps k) (p.1 k))
          | inr other ↦ rw other (p.1 k)
        ],
      );
      tries = λ k. k;
      switches = λ k. k;
      contexts = λ h. h;
      lambdas = refl;
      caller = λ _. refl;
    },
    Emits-refl v.diagram,
  )

-- What a pushed message must be: one that opens and closes no block, of a caller with an activity.
pub push_message-Step :
    {b : Place} (kind : ExprKind) (expr : ℕ) (m : Message) (v : Visitor)
    → IsPending v
    → IsSingle m
    → has_activity v.diagram m.from ≡ true
    → Step b v (push_message kind expr m v)
unfolding push_message
push_message-Step kind expr m v p i h = elim (Bool-cases (kind is_kind call_expr)) [
  | inl call ↦
      let calls = insert {V = List Message} expr [] v.call_expr_message_map in
      rw call (
        Step-calls v (update expr (λ ms. ms ++ m ∷ []) calls) (
          All-update (All IsSingle) expr (λ ms. ms ++ m ∷ []) calls
            (λ ms k. All-append IsSingle ms (m ∷ []) k (i, tt))
            (All-insert (λ entry. All IsSingle entry.1) expr [] v.call_expr_message_map tt p.0)))
  | inr other ↦
      rw other
        (Step-with_map v kind (insert expr m) (λ ms. All-insert (Waits v.diagram) expr m ms (i, h)))
]

pop_call_messages-Step :
    {b : Place} (expr : ℕ) (ms : List Message) (v : Visitor)
    → IsPending v
    → All IsSingle ms
    → Step b v (pop_call_messages expr ms v)
unfolding pop_call_messages
pop_call_messages-Step expr ms v p h =
    let (e, k, i) = pop_calls_lem ms v.diagram h in
    let v' = with_diagram (pop_calls ms v.diagram).0 v in
    Step-trans {v' = v'} (Progress-with_diagram v (pop_calls ms v.diagram).0 k, e)
      (left_over v' (pop_calls ms v.diagram).1 p.0 i)
  where
    left_over :
        {b : Place} (w : Visitor) (left : List Message)
        → All (λ entry. All IsSingle entry.1) w.call_expr_message_map
        → All IsSingle left
        → Step b w (elim left [
          | [] ↦ record w { call_expr_message_map = erase_key expr w.call_expr_message_map }
          | m ∷ rest ↦ record w {
            call_expr_message_map = update expr (λ _. m ∷ rest) w.call_expr_message_map;
          }
        ])
    left_over w [] p i =
        Step-calls w _
          (All-erase_key (λ entry. All IsSingle entry.1) expr w.call_expr_message_map p)
    left_over w (m ∷ rest) p i =
        Step-calls w _
          (All-update (All IsSingle) expr (λ _. m ∷ rest) w.call_expr_message_map (λ _ _. i) p)

pop_one_message-Step :
    {b : Place} (kind : ExprKind) (expr : ℕ) (m : Message) (v : Visitor)
    → Waits v.diagram (expr, m)
    → (v' : Visitor) × (pop_one_message kind expr m v ≡ some v') × Step b v v'
unfolding pop_one_message
pop_one_message-Step kind expr m v (i, h) =
    let w = with_diagram (appended m v.diagram) v in
    (
      with_map kind (erase_key expr) w,
      rw h refl,
      Step-trans {v' = w}
          (
            Progress-with_diagram v (appended m v.diagram) (appended-Keeps m v.diagram),
            appended-Emits m v.diagram i h,
          )
          (Step-with_map w kind (erase_key expr)
            (λ ms. All-erase_key (Waits (appended m v.diagram)) expr ms)),
    )

-- The messages of an expression are put into the diagram, and none of them lacks its activity.
pub pop_message_to_diagram-Step :
    {b : Place} (kind : ExprKind) (expr : ℕ) (v : Visitor)
    → IsPending v
    → (v' : Visitor) × (pop_message_to_diagram kind expr v ≡ some v') × Step b v v'
unfolding pop_message_to_diagram
pop_message_to_diagram-Step kind expr v p = elim (Bool-cases (kind is_kind call_expr)) [
  | inl call ↦ elim (Option-cases (find expr v.call_expr_message_map)) [
    | inl gone ↦ (v, rw (call, gone) refl, Step-refl v)
    | inr ([], found) ↦ (v, rw (call, found) refl, Step-refl v)
    | inr (m ∷ ms, found) ↦ (
      pop_call_messages expr (m ∷ ms) v,
      rw (call, found) refl,
      pop_call_messages-Step expr (m ∷ ms) v p
          (find-Each (All IsSingle) expr v.call_expr_message_map (m ∷ ms) found p.0),
    )
  ]
  | inr other ↦ elim (Option-cases (find expr (v.message_maps kind))) [
    | inl gone ↦ (v, rw (other, gone) refl, Step-refl v)
    | inr (m, found) ↦
        rw (other, found)
          (pop_one_message-Step kind expr m v (
            find-Each (λ m. IsSingle m × (has_activity v.diagram m.from ≡ true)) expr
              (v.message_maps kind) m found (p.1 kind)))
  ]
]
