-- ===== src/Filter/Namespaces.antt =====
-- `namespace_filter` and `element_type_filter` (src/common/model/filters/diagram_filter.cc): votes on a
-- namespace and on the type of an element. A regular expression, which is matched outside the
-- program, is its test of a text.
use clang_uml.Prelude.{
  Bool, true, false, ◌||◌, none, some, List, [], ◌∷◌, ◌++◌, String, if◌then◌else◌, ◌≡◌, refl, sym,
  ap, ◌∙◌, arith, str_eq, ◌⊎◌, inl, inr, ◌↔◌, append_assoc,
}
use clang_uml.Tvl
use clang_uml.Tvl.{Value, is_true}
use clang_uml.Tvl.Laws.{some_true, any_of-verdict}
use clang_uml.Filter.{FilterType, is_inclusive}
use clang_uml.ModelPath.{ModelPath, starts_with, path_eq}
use clang_uml.ModelPath.Relative.{starts_with_iff}

pub data NamespaceOrRegex : Type 0 where
  namespace_pattern : ModelPath → NamespaceOrRegex
  regex : (String → Bool) → NamespaceOrRegex

abbrev is_empty : List String → Bool
is_empty [] = true
is_empty (_ ∷ _) = false

-- The test of one pattern on a namespace, whose text is the last argument.
abbrev pub matches_namespace : FilterType → NamespaceOrRegex → ModelPath → String → Bool
matches_namespace type (namespace_pattern pattern) ns text =
    if is_inclusive type
    then starts_with ns pattern || starts_with pattern ns
    else starts_with ns pattern
matches_namespace type (regex r) ns text = r text

abbrev vote : FilterType → (ModelPath → String) → ModelPath → NamespaceOrRegex → Value
vote type to_string ns nsit = some (matches_namespace type nsit ns (to_string ns))

-- namespace_filter::match(diagram, namespace_)
unfoldable pub match_namespace :
    FilterType → List NamespaceOrRegex → (ModelPath → String) → ModelPath → Value
unfolding Tvl.any_of
match_namespace type namespaces to_string ns =
    if is_empty ns.path then none else Tvl.any_of (vote type to_string ns) namespaces

-- What the filter reads of an element: its namespace, and its name as a path and as a text.
pub record NamedElement : Type 0 where
  pub name_space : ModelPath
  pub name_and_ns : ModelPath
  pub full_name : String

-- namespace_filter::match(diagram, element) for a package in a diagram that is no package diagram.
unfoldable pub match_package : FilterType → List NamespaceOrRegex → NamedElement → Value
unfolding Tvl.any_of
match_package type namespaces e =
    Tvl.any_of
      (λ nsit. some (elim nsit [
        | regex r ↦ r e.full_name
        | namespace_pattern pattern ↦
            let result = starts_with e.name_and_ns pattern || path_eq e.name_and_ns pattern in
            if is_inclusive type then result || starts_with pattern e.name_and_ns else result
      ]))
      namespaces

-- The same for any other element of such a diagram.
unfoldable pub match_element : List NamespaceOrRegex → NamedElement → Value
unfolding Tvl.any_of
match_element namespaces e =
    Tvl.any_of
      (λ nsit. some (elim nsit [
        | regex r ↦ r e.full_name
        | namespace_pattern pattern ↦ starts_with e.name_space pattern
      ]))
      namespaces

-- element_type_filter::match
unfoldable pub match_element_type : List String → String → Value
unfolding Tvl.any_of
match_element_type element_types type_name =
    Tvl.any_of (λ element_type. some (str_eq type_name element_type)) element_types

-- A list of patterns with no regular expression.
abbrev pub AllPatterns : List NamespaceOrRegex → Type 0
AllPatterns [] = Unit
AllPatterns (namespace_pattern _ ∷ ps) = AllPatterns ps
AllPatterns (regex _ ∷ ps) = ⊥

starts_with_trans :
    (a b c : ModelPath) → starts_with a b ≡ true → starts_with b c ≡ true → starts_with a c ≡ true
starts_with_trans a b c h k =
    let (r, e) = (starts_with_iff a b).0 h in
    let (s, f) = (starts_with_iff b c).0 k in
    (starts_with_iff a c).1 (s ++ r, e ∙ ap (λ l. l ++ r) f ∙ append_assoc c.path s r)

append_nonempty : (xs ys : List String) → is_empty xs ≡ false → is_empty (xs ++ ys) ≡ false
append_nonempty [] ys h = cc
append_nonempty (x ∷ xs) ys h = refl

prefix_total :
    (b c r s : List String)
    → b ++ r ≡ c ++ s
    → ((t : List String) × (b ≡ c ++ t)) ⊎ ((t : List String) × (c ≡ b ++ t))
prefix_total [] c r s h = inr (c, refl)
prefix_total (x ∷ b) [] r s h = inl (x ∷ b, refl)
prefix_total (x ∷ b) (y ∷ c) r s h = elim (prefix_total b c r s cc) [
  | inl (t, e) ↦ inl (t, cc)
  | inr (t, e) ↦ inr (t, cc)
]

nonempty :
    (inner outer : ModelPath)
    → is_empty outer.path ≡ false
    → starts_with inner outer ≡ true
    → is_empty inner.path ≡ false
nonempty inner outer n h =
    let (r, e) = (starts_with_iff inner outer).0 h in ap is_empty e ∙ append_nonempty outer.path r n

-- Two paths that start the same path: one starts the other.
starts_with_total :
    (a b c : ModelPath)
    → starts_with a b ≡ true
    → starts_with a c ≡ true
    → (starts_with b c || starts_with c b) ≡ true
starts_with_total a b c h k =
    let (r, e) = (starts_with_iff a b).0 h in
    let (s, f) = (starts_with_iff a c).0 k in
    elim (prefix_total b.path c.path r s (sym e ∙ f)) [
      | inl longer ↦ ground (arith, (starts_with_iff b c).1 longer)
      | inr shorter ↦ ground (arith, (starts_with_iff c b).1 shorter)
    ]

any_true :
    (xs : List NamespaceOrRegex) (p q : NamespaceOrRegex → Value)
    → AllPatterns xs
    → ((pattern : ModelPath)
        → is_true (p (namespace_pattern pattern)) ≡ true
        → is_true (q (namespace_pattern pattern)) ≡ true)
    → some_true p xs ≡ true
    → some_true q xs ≡ true
any_true [] p q a f h = h
any_true (namespace_pattern pattern ∷ xs) p q a f h = ground (arith, f pattern, any_true xs p q a f)
any_true (regex r ∷ xs) p q a f h = elim a [ ]

vote_true :
    (p : NamespaceOrRegex → Value) (xs : List NamespaceOrRegex)
    → (is_true (Tvl.any_of p xs) ≡ true) ↔ (some_true p xs ≡ true)
vote_true p xs =
    (λ h. ground (arith, any_of-verdict p xs, h), λ h. ground (arith, any_of-verdict p xs, h))

-- If no entry of the filter is a regular expression, and a namespace is in another that is not empty: an
-- exclusive filter that matches the outer one matches the inner one, and an inclusive one that matches the
-- inner one matches the outer one.
pub match_namespace-nested :
    (namespaces : List NamespaceOrRegex) (to_string : ModelPath → String) (inner outer : ModelPath)
    → AllPatterns namespaces
    → is_empty outer.path ≡ false
    → starts_with inner outer ≡ true
    → (is_true (match_namespace FilterType.k_exclusive namespaces to_string outer) ≡ true
        → is_true (match_namespace FilterType.k_exclusive namespaces to_string inner) ≡ true)
      × (is_true (match_namespace FilterType.k_inclusive namespaces to_string inner) ≡ true
          → is_true (match_namespace FilterType.k_inclusive namespaces to_string outer) ≡ true)
unfolding match_namespace
match_namespace-nested namespaces to_string inner outer a n h =
    let inner_n : is_empty inner.path ≡ false = nonempty inner outer n h in
    let vote_in = vote FilterType.k_inclusive to_string in
    let vote_ex = vote FilterType.k_exclusive to_string in
    rw (n, inner_n)
      (
        λ v. (vote_true (vote_ex inner) namespaces).1 (
            any_true namespaces (vote_ex outer) (vote_ex inner) a
              (λ pattern k. ground (arith, starts_with_trans inner outer pattern h, k))
              ((vote_true (vote_ex outer) namespaces).0 v)),
        λ v. (vote_true (vote_in outer) namespaces).1 (
            any_true namespaces (vote_in inner) (vote_in outer) a
              (λ pattern k. ground (
                arith,
                starts_with_total inner outer pattern h,
                starts_with_trans pattern inner outer,
                k,
                h,
              ))
              ((vote_true (vote_in inner) namespaces).0 v)),
      )
