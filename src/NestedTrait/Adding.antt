-- ===== src/NestedTrait/Adding.antt =====
-- Adding an element puts it in the tree once and leaves all that is there.
use clang_uml.Prelude.{
  ℕ, ◌+◌, Bool, true, false, not, elem, refl, sym, ap, ◌∙◌, ◌&&◌, Option, none, some, List, [], ◌∷◌,
  String, if◌then◌else◌, ◌>>=◌, ◌≡◌, arith, str_eq, Bool-cases, inl, inr,
}
use clang_uml.NestedTrait.{
  Elements, no_elements, element, package_, Item, only, push_back, has_id, add_element,
  add_element_at, same_root,
}
use clang_uml.NestedTrait.Contents.{ids, count, count-append}

-- The ids of one level.
abbrev pub level_ids : Elements → List ℕ
level_ids no_elements = []
level_ids (element i name next) = i ∷ level_ids next
level_ids (package_ i name r inner next) = i ∷ level_ids next

-- What adding gives: nothing (the exception), or a tree with the item when the flag says so.
abbrev pub IsAddition : Item → Elements → Option (Bool × Elements) → Type 0
IsAddition p es none = Unit
IsAddition p es (some (added, es')) =
    (x : ℕ) → count x (ids es') ≡ (if added then count x (ids (only p)) else 0) + count x (ids es)

push_back-count :
    (p : Item) (es : Elements) (x : ℕ)
    → count x (ids (push_back p es)) ≡ count x (ids (only p)) + count x (ids es)
unfolding push_back ids
push_back-count p no_elements x = omega arith
push_back-count p (element i name next) x = ground (arith, push_back-count p next x)
push_back-count p (package_ i name r inner next) x = ground (
  arith,
  push_back-count p next x,
  count-append x (ids inner) (ids next),
  count-append x (ids inner) (ids (push_back p next)),
)

add_element-IsAddition : (p : Item) (es : Elements) → IsAddition p es (some (add_element p es))
unfolding add_element
add_element-IsAddition p es = elim (Bool-cases (has_id p.id es)) [
  | inl there ↦ rw there (λ x. omega arith)
  | inr absent ↦ rw absent (push_back-count p es)
]

in_element :
    (p : Item) (i : ℕ) (name : String) (next : Elements) (o : Option (Bool × Elements))
    → IsAddition p next o
    → IsAddition p (element i name next) (o >>= λ r. some (r.0, element i name r.1))
unfolding ids
in_element p i name next none h = tt
in_element p i name next (some (b, es)) h = λ x. ground (arith, h x)

in_inner :
    (p : Item) (i : ℕ) (name : String) (root : Bool) (inner next : Elements)
    (o : Option (Bool × Elements))
    → IsAddition p inner o
    → IsAddition p
        (package_ i name root inner next)
        (o >>= λ r. some (r.0, package_ i name root r.1 next))
unfolding ids
in_inner p i name root inner next none h = tt
in_inner p i name root inner next (some (b, es)) h = λ x.
    ground (arith, h x, count-append x (ids inner) (ids next), count-append x (ids es) (ids next))

in_next :
    (p : Item) (i : ℕ) (name : String) (root : Bool) (inner next : Elements)
    (o : Option (Bool × Elements))
    → IsAddition p next o
    → IsAddition p
        (package_ i name root inner next)
        (o >>= λ r. some (r.0, package_ i name root inner r.1))
unfolding ids
in_next p i name root inner next none h = tt
in_next p i name root inner next (some (b, es)) h = λ x.
    ground (arith, h x, count-append x (ids inner) (ids next), count-append x (ids inner) (ids es))

-- The level at a path: each name is that of the first element with it, which is a package.
abbrev pub level_at : List String → Bool → Elements → Option Elements
level_at [] root es = some es
level_at (n ∷ ns) root no_elements = none
level_at (n ∷ ns) root (element i name next) =
    let later = level_at (n ∷ ns) root next in if str_eq name n then none else later
level_at (n ∷ ns) root (package_ i name r inner next) =
    let here = level_at ns false inner in
    let later = level_at (n ∷ ns) root next in
    if str_eq name n && same_root r root then here else later

-- A level with the elements of another behind its own.
abbrev pub followed_by : Elements → Elements → Elements
followed_by no_elements more = more
followed_by (element i name next) more = element i name (followed_by next more)
followed_by (package_ i name r inner next) more = package_ i name r inner (followed_by next more)

push_back-followed_by : (p : Item) (es : Elements) → push_back p es ≡ followed_by es (only p)
unfolding push_back
push_back-followed_by p no_elements = refl
push_back-followed_by p (element i name next) = ap (element i name) (push_back-followed_by p next)
push_back-followed_by p (package_ i name r inner next) =
    ap (package_ i name r inner) (push_back-followed_by p next)

-- The levels of a result at the path, where the item stands last if its id was not there, and only then.
abbrev pub IsLevel : Item → Option Elements → Option Elements → Bool → Type 0
IsLevel p none after added = ⊥
IsLevel p (some before) after added =
    (added ≡ not (elem p.id (level_ids before)))
    × (after ≡ some (if added then followed_by before (only p) else before))

abbrev pub IsAddedAt : Item → List String → Bool → Elements → Option (Bool × Elements) → Type 0
IsAddedAt p path root es none = level_at path root es ≡ none
IsAddedAt p path root es (some (added, es')) =
    IsLevel p (level_at path root es) (level_at path root es') added

has_id_lem : (i : ℕ) (es : Elements) → has_id i es ≡ elem i (level_ids es)
unfolding has_id
has_id_lem i no_elements = refl
has_id_lem i (element j name next) = ground (arith, has_id_lem i next)
has_id_lem i (package_ j name r inner next) = ground (arith, has_id_lem i next)

add_element-IsLevel :
    (p : Item) (es : Elements)
    → IsLevel p (some es) (some (add_element p es).1) (add_element p es).0
unfolding add_element
add_element-IsLevel p es = elim (Bool-cases (has_id p.id es)) [
  | inl there ↦ rw there (
    (let e : elem p.id (level_ids es) ≡ true = sym (has_id_lem p.id es) ∙ there in rw e refl),
    refl,
  )
  | inr absent ↦ rw absent (
    (let e : elem p.id (level_ids es) ≡ false = sym (has_id_lem p.id es) ∙ absent in rw e refl),
    ap some (push_back-followed_by p es),
  )
]

-- A result below, put back into an element whose level is that of the result.
put_back :
    (p : Item) (path path' : List String) (root root' : Bool) (es es' : Elements)
    (f : Elements → Elements) (o : Option (Bool × Elements))
    → level_at path' root' es' ≡ level_at path root es
    → ((l : Elements) → level_at path' root' (f l) ≡ level_at path root l)
    → IsAddedAt p path root es o
    → IsAddedAt p path' root' es' (o >>= λ r. some (r.0, f r.1))
put_back p path path' root root' es es' f none e g h = e ∙ h
put_back p path path' root root' es es' f (some (added, l)) e g h = rw (e, g l) h

add_element_at-IsAddedAt :
    (p : Item) (path : List String) (root : Bool) (es : Elements)
    → IsAddedAt p path root es (add_element_at p path root es)
unfolding add_element_at
add_element_at-IsAddedAt p [] root es = add_element-IsLevel p es
add_element_at-IsAddedAt p (n ∷ ns) root no_elements = refl
add_element_at-IsAddedAt p (n ∷ ns) root (element i name next) = elim (Bool-cases (str_eq name n)) [
  | inl same ↦ rw (same, add_element_at) (rw same refl)
  | inr other ↦
      rw (other, add_element_at)
        (put_back p (n ∷ ns) (n ∷ ns) root root next (element i name next) (element i name) _
          (rw other refl) (λ l. rw other refl) (add_element_at-IsAddedAt p (n ∷ ns) root next))
]
add_element_at-IsAddedAt p (n ∷ ns) root (package_ i name r inner next) =
    elim (Bool-cases (str_eq name n && same_root r root)) [
      | inl same ↦
          rw (same, add_element_at)
            (put_back p ns (n ∷ ns) false root inner (package_ i name r inner next)
              (λ l. package_ i name r l next) _ (rw same refl) (λ l. rw same refl)
              (add_element_at-IsAddedAt p ns false inner))
      | inr other ↦
          rw (other, add_element_at)
            (put_back p (n ∷ ns) (n ∷ ns) root root next (package_ i name r inner next)
              (package_ i name r inner) _ (rw other refl) (λ l. rw other refl)
              (add_element_at-IsAddedAt p (n ∷ ns) root next))
    ]

add_element_at-counts :
    (p : Item) (path : List String) (root : Bool) (es : Elements)
    → IsAddition p es (add_element_at p path root es)
unfolding add_element_at
add_element_at-counts p [] root es = add_element-IsAddition p es
add_element_at-counts p (n ∷ ns) root no_elements = tt
add_element_at-counts p (n ∷ ns) root (element i name next) = elim (Bool-cases (str_eq name n)) [
  | inl same ↦ rw (same, add_element_at) tt
  | inr other ↦
      rw (other, add_element_at)
        (in_element p i name next _ (add_element_at-counts p (n ∷ ns) root next))
]
add_element_at-counts p (n ∷ ns) root (package_ i name r inner next) =
    elim (Bool-cases (str_eq name n && same_root r root)) [
      | inl same ↦
          rw (same, add_element_at)
            (in_inner p i name r inner next _ (add_element_at-counts p ns false inner))
      | inr other ↦
          rw (other, add_element_at)
            (in_next p i name r inner next _ (add_element_at-counts p (n ∷ ns) root next))
    ]

-- Adding at a path is undefined exactly if there is no level at the path. Else the item stands last in
-- that level if the flag says so, which it does exactly if no element of that level has its id, and the level
-- is what it was if not; and in the whole tree each id stands as often as before, and as often again as it
-- stands in the item if that was added.
pub add_element_at-IsAddition :
    (p : Item) (path : List String) (root : Bool) (es : Elements)
    → IsAddition p es (add_element_at p path root es)
      × IsAddedAt p path root es (add_element_at p path root es)
add_element_at-IsAddition p path root es =
    (add_element_at-counts p path root es, add_element_at-IsAddedAt p path root es)
