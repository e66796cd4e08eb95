-- ===== src/SequenceVisitor/Steps.antt =====
-- What every part of the traversal keeps of the visitor's state.
pub mod Pending
pub mod Blocks
pub mod Ensured
pub mod MessageTypes
pub mod Visits
pub mod Contexts
pub mod Declarations
pub mod Handlers
pub mod TrySwitch
pub mod Ifs
pub mod Expressions
pub mod Cases
use clang_uml.Prelude.{
  ℕ, Bool, true, false, not, ◌&&◌, ◌||◌, Option, none, some, List, [], ◌∷◌, ◌++◌, ◌≡◌, refl, sym,
  ap, ◌∙◌, arith, if◌then◌else◌, ◌==◌, ==_refl, All, All-mono, ◌>>=◌, Bool-cases, inl, inr,
}
use mathlib.Core.Path.{subst}
use clang_uml.Sequence.Message.{Message, new_message}
use clang_uml.Sequence.Diagram.{Diagram, messages_of, has_activity, add_block_message}
use clang_uml.Sequence.Diagram.Adding.{messages_of-add_message}
use clang_uml.Sequence.Blocks.{is_begin_block_message, is_end_block_message}
use clang_uml.Sequence.Blocks.Statements.{IsSingle, flatten}
use clang_uml.Enums.{MessageType}
use clang_uml.SequenceVisitor.Context.{
  CallExpressionContext, ExprKind, caller_id, is_there, top, has_ast_context,
}
use clang_uml.SequenceVisitor.Messages.{Visitor, with_diagram}
use clang_uml.SequenceVisitor.Declarations.{with_context}
use clang_uml.SequenceVisitor.Handlers.{Handler, StmtText, stmt_message, begin_block, end_block}
use clang_uml.SequenceVisitor.Walk.{Place, within_switch, from_inside}
use clang_uml.SequenceVisitor.Emits.{
  Added, Emits, Keeps, Emits-refl, Emits-trans, add_message-Keeps,
}
use clang_uml.SequenceVisitor.Emits.Closing.{end_block_message-Emits}

-- The messages that wait for the end of their expression open and close no block, and those of the maps
-- of one message have an activity to go to.
abbrev pub Waits : Diagram → ℕ × Message → Type 0
Waits d entry = IsSingle entry.1 × (has_activity d entry.1.from ≡ true)

abbrev pub IsPending : Visitor → Type 0
IsPending v =
    All (λ entry. All IsSingle entry.1) v.call_expr_message_map
    × ((kind : ExprKind) → All (Waits v.diagram) (v.message_maps kind))

-- Inside there is a context of the syntax tree; outside there is no lambda, and no caller without such a
-- context.
abbrev pub is_empty {ℓ} : {A : Type ℓ} → List A → Bool
is_empty [] = true
is_empty (_ ∷ _) = false

abbrev pub HasContext : Bool → CallExpressionContext → Type 0
HasContext inside c =
    ((inside || is_empty c.current_lambda_caller_id) ≡ true)
    × ((has_ast_context c || (not inside && c.current_caller_id == 0)) ≡ true)

pub HasContext-caller :
    (inside : Bool) (c : CallExpressionContext)
    → HasContext inside c
    → (caller_id c == 0) ≡ false
    → has_ast_context c ≡ true
unfolding caller_id
HasContext-caller inside c (e, h) n = of_stack c.current_lambda_caller_id refl
  where
    of_stack : (stack : List ℕ) → c.current_lambda_caller_id ≡ stack → has_ast_context c ≡ true
    of_stack stack s = ground (arith, e, h, n, s)

-- `b` is the place of the traversal.
pub record Progress (b : Place) (v v' : Visitor) : Type 0 where
  pub kept : Keeps v.diagram v'.diagram
  pub pending : IsPending v → IsPending v'
  pub tries :
      is_there (top v.context.try_stmt_stack) ≡ true
      → is_there (top v'.context.try_stmt_stack) ≡ true
  pub switches :
      is_there (top v.context.switch_stmt_stack) ≡ true
      → is_there (top v'.context.switch_stmt_stack) ≡ true
  pub contexts : HasContext b.inside v.context → HasContext b.inside v'.context
  pub lambdas : v'.context.current_lambda_caller_id ≡ v.context.current_lambda_caller_id
  pub caller : b.in_switch ≡ true → caller_id v'.context ≡ caller_id v.context

abbrev pub Step : Place → Visitor → Visitor → Type 0
Step b v v' = Progress b v v' × Emits v.diagram v'.diagram

pub Progress-trans :
    {b : Place} {v v' v'' : Visitor} → Progress b v v' → Progress b v' v'' → Progress b v v''
Progress-trans p q = record {
  kept = (λ id h. q.kept.0 id (p.kept.0 id h), λ u. q.kept.1 (p.kept.1 u));
  pending = λ h. q.pending (p.pending h);
  tries = λ h. q.tries (p.tries h);
  switches = λ h. q.switches (p.switches h);
  contexts = λ h. q.contexts (p.contexts h);
  lambdas = q.lambdas ∙ p.lambdas;
  caller = λ h. q.caller h ∙ p.caller h;
}

pub Step-trans : {b : Place} {v v' v'' : Visitor} → Step b v v' → Step b v' v'' → Step b v v''
Step-trans {b} {v} {v'} {v''} (p, e) (q, f) =
    (Progress-trans p q, Emits-trans v.diagram v'.diagram v''.diagram e f)

pub Step-refl : {b : Place} (v : Visitor) → Step b v v
Step-refl v = (
  record {
    kept = (λ id h. h, λ u. u);
    pending = λ h. h;
    tries = λ h. h;
    switches = λ h. h;
    contexts = λ h. h;
    lambdas = refl;
    caller = λ _. refl;
  },
  Emits-refl v.diagram,
)

pub Step-weaken : {b : Place} {v v' : Visitor} → Step (within_switch b) v v' → Step b v v'
Step-weaken (p, e) = (
  record {
    kept = p.kept;
    pending = p.pending;
    tries = p.tries;
    switches = p.switches;
    contexts = p.contexts;
    lambdas = p.lambdas;
    caller = λ _. p.caller refl;
  },
  e,
)

-- What waits goes on to wait while no activity is lost.
pub still-Waits :
    (d d' : Diagram) (entries : List (ℕ × Message))
    → Keeps d d'
    → All (Waits d) entries
    → All (Waits d') entries
still-Waits d d' entries k = All-mono _ _ entries (λ entry h. (h.0, k.0 entry.1.from h.1))

pub Progress-with_diagram :
    {b : Place} (v : Visitor) (d : Diagram) → Keeps v.diagram d → Progress b v (with_diagram d v)
Progress-with_diagram v d k = record {
  kept = k;
  pending = λ h. (h.0, λ kind. still-Waits v.diagram d (v.message_maps kind) k (h.1 kind));
  tries = λ h. h;
  switches = λ h. h;
  contexts = λ h. h;
  lambdas = refl;
  caller = λ _. refl;
}

pub Step-with_context :
    {b : Place} (v : Visitor) (c : CallExpressionContext)
    → (is_there (top v.context.try_stmt_stack) ≡ true → is_there (top c.try_stmt_stack) ≡ true)
    → (is_there (top v.context.switch_stmt_stack) ≡ true
        → is_there (top c.switch_stmt_stack) ≡ true)
    → (HasContext b.inside v.context → HasContext b.inside c)
    → c.current_lambda_caller_id ≡ v.context.current_lambda_caller_id
    → (b.in_switch ≡ true → caller_id c ≡ caller_id v.context)
    → Step b v (with_context c v)
Step-with_context v c t s x l k = (
  record {
    kept = (λ id h. h, λ u. u);
    pending = λ h. h;
    tries = t;
    switches = s;
    contexts = x;
    lambdas = l;
    caller = k;
  },
  Emits-refl v.diagram,
)

-- In a `switch` of a caller with an id, the caller's activity has messages.
abbrev pub is_nonempty : List Message → Bool
is_nonempty [] = false
is_nonempty (_ ∷ _) = true

abbrev pub InSwitch : Place → Visitor → Type 0
InSwitch b v =
    b.in_switch ≡ true
    → (caller_id v.context == 0 || is_nonempty (messages_of v.diagram (caller_id v.context))) ≡ true

is_nonempty-append : (xs ys : List Message) → is_nonempty xs ≡ true → is_nonempty (xs ++ ys) ≡ true
is_nonempty-append [] ys h = cc
is_nonempty-append (x ∷ xs) ys h = refl

pub is_nonempty-snoc : (xs : List Message) (m : Message) → is_nonempty (xs ++ m ∷ []) ≡ true
is_nonempty-snoc [] m = refl
is_nonempty-snoc (x ∷ xs) m = refl

pub Step-InSwitch : {b : Place} {v v' : Visitor} → Step b v v' → InSwitch b v → InSwitch b v'
Step-InSwitch {b} {v} {v'} (p, e) h t =
    let (s, added, _, _) = e (caller_id v.context) in
    let grows = is_nonempty-append (messages_of v.diagram (caller_id v.context)) (flatten s) in
    rw (p.caller t, added) (or_mono (caller_id v.context == 0) _ _ grows (h t))
  where
    or_mono : (a x y : Bool) → (x ≡ true → y ≡ true) → (a || x) ≡ true → (a || y) ≡ true
    or_mono true x y f k = refl
    or_mono false x y f k = f k

-- A handler that is defined and makes a step, whatever waits.
lowered :
    (inside gives : Bool) (c c' : CallExpressionContext)
    → c'.current_lambda_caller_id ≡ c.current_lambda_caller_id
    → HasContext (inside || gives) c'
    → HasContext inside c
    → HasContext inside c'
lowered true gives c c' l g h = g
lowered false false c c' l g h = g
lowered false true c c' l (_, a) (e, _) = (rw l e, ground (arith, a))

-- A step inside, behind one that came there, is one of the outside, since no lambda is left open.
pub upgraded-Step :
    {b : Place} (gives : Bool) {v v' : Visitor}
    → Step (from_inside gives b) v v'
    → HasContext b.inside v.context
    → HasContext (b.inside || gives) v.context
    → Step b v v'
upgraded-Step {b} gives {v} {v'} (p, e) h g = (
  record {
    kept = p.kept;
    pending = p.pending;
    tries = p.tries;
    switches = p.switches;
    contexts = λ _. lowered b.inside gives v.context v'.context p.lambdas (p.contexts g) h;
    lambdas = p.lambdas;
    caller = p.caller;
  },
  e,
)

-- What stays of the visitor's state when its context is put back.
pub record Kept (v v' : Visitor) : Type 0 where
  pub kept : Keeps v.diagram v'.diagram
  pub pending : IsPending v → IsPending v'
  pub emits : Emits v.diagram v'.diagram

pub Kept-refl : (v : Visitor) → Kept v v
Kept-refl v = record { kept = (λ id h. h, λ u. u); pending = λ p. p; emits = Emits-refl v.diagram }

pub Kept-trans : {v v' v'' : Visitor} → Kept v v' → Kept v' v'' → Kept v v''
Kept-trans {v} {v'} {v''} k l = record {
  kept = (λ id h. l.kept.0 id (k.kept.0 id h), λ u. l.kept.1 (k.kept.1 u));
  pending = λ h. l.pending (k.pending h);
  emits = Emits-trans v.diagram v'.diagram v''.diagram k.emits l.emits;
}

pub Step-Kept : {b : Place} {v v' : Visitor} → Step b v v' → Kept v v'
Step-Kept (p, e) = record { kept = p.kept; pending = p.pending; emits = e }

-- What a handler is given: messages that wait as they should, and a context.
abbrev pub IsReady : Place → Visitor → Type 0
IsReady b v = IsPending v × HasContext b.inside v.context

pub still-IsReady : {b : Place} {v v' : Visitor} → Step b v v' → IsReady b v → IsReady b v'
still-IsReady (p, _) h = (p.pending h.0, p.contexts h.1)

abbrev pub Works : Place → Handler → Type 0
Works b h =
    (v : Visitor) → IsReady b v → InSwitch b v → (v' : Visitor) × (h v ≡ some v') × Step b v v'

pub Works-seq : {b : Place} (f g : Handler) → Works b f → Works b g → Works b (λ v. f v >>= g)
Works-seq f g wf wg v p s =
    let (v', e, st) = wf v p s in
    let (v'', e', st') = wg v' (still-IsReady st p) (Step-InSwitch st s) in
    (v'', ap (λ o. o >>= g) e ∙ e', Step-trans st st')
