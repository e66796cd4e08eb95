-- ===== src/Filter/Members.antt =====
-- Filters by access and by the type of a method (src/common/model/filters/diagram_filter.cc): methods,
-- and elements by their access in a module.
use mathlib.Core.List.{foldr}
use clang_uml.Prelude.{
  Bool, String, not, ◌&&◌, ◌||◌, Option, none, some, List, [], ◌∷◌, map, ◌≡◌, refl, ◌∙◌, ap, arith,
  any_of, if◌then◌else◌,
}
use clang_uml.Tvl
use clang_uml.Tvl.{Value, or_}
use clang_uml.Tvl.Laws.{any_of-fold}
use clang_uml.Filter.Ancestry.{is_empty}
use clang_uml.Enums.{AccessType, ◌is_access◌, ModuleAccess}

-- `method_type` of src/config/config.h
pub data MethodType : Type 0 where
  constructor_ destructor assignment operator_ defaulted deleted static_ : MethodType

-- The fields of a class_method (src/class_diagram/model/class_method.h) that the filters read.
pub record ClassMethod : Type 0 where
  pub access : AccessType
  pub is_static : Bool
  pub is_defaulted : Bool
  pub is_deleted : Bool
  pub is_constructor : Bool
  pub is_destructor : Bool
  pub is_move_assignment : Bool
  pub is_copy_assignment : Bool
  pub is_operator : Bool

abbrev pub is_of_type : ClassMethod → MethodType → Bool
is_of_type m MethodType.constructor_ = m.is_constructor
is_of_type m MethodType.destructor = m.is_destructor
is_of_type m MethodType.assignment = m.is_copy_assignment || m.is_move_assignment
is_of_type m MethodType.operator_ = m.is_operator
is_of_type m MethodType.defaulted = m.is_defaulted
is_of_type m MethodType.deleted = m.is_deleted
is_of_type m MethodType.static_ = m.is_static

unfoldable pub method_type_match : List MethodType → ClassMethod → Value
method_type_match method_types m = Tvl.any_of (λ mt. some (is_of_type m mt)) method_types

unfoldable pub access_match : List AccessType → AccessType → Value
access_match access a = Tvl.any_of (λ x. some (a is_access x)) access

unfoldable pub class_method_match : List AccessType → List MethodType → ClassMethod → Value
class_method_match access method_types m =
    or_ (access_match access m.access) (method_type_match method_types m)

abbrev pub is_visible : Bool → ModuleAccess → Bool
is_visible module_private ModuleAccess.k_public = not module_private
is_visible module_private ModuleAccess.k_private = module_private

-- Of an element with a module or none, and whether it is private to it.
unfoldable pub module_access_match :
    List ModuleAccess → (module_name : Option String) → (module_private : Bool) → Value
module_access_match access none module_private = none
module_access_match [] (some module_name) module_private = none
module_access_match (x ∷ access) (some module_name) module_private =
    Tvl.any_of (λ y. some (is_visible module_private y)) (x ∷ access)

-- The vote of a list that is not empty is whether a test holds of one of its values.
abbrev pub vote_of {ℓ} : {A : Type ℓ} → (A → Bool) → List A → Value
vote_of p [] = none
vote_of p (x ∷ xs) = some (any_of p (x ∷ xs))

or_-vote_of {ℓ} :
    {A : Type ℓ} (p : A → Bool) (x : A) (xs : List A)
    → or_ (some (p x)) (vote_of p xs) ≡ vote_of p (x ∷ xs)
unfolding or_
or_-vote_of p x [] = ground arith
or_-vote_of p x (y ∷ xs) = ground arith

foldr-vote_of {ℓ} :
    {A : Type ℓ} (p : A → Bool) (xs : List A)
    → foldr or_ none (map (λ x. some (p x)) xs) ≡ vote_of p xs
foldr-vote_of p [] = refl
foldr-vote_of p (x ∷ xs) = ap (or_ (some (p x))) (foldr-vote_of p xs) ∙ or_-vote_of p x xs

any_of-vote_of {ℓ} :
    {A : Type ℓ} (p : A → Bool) (xs : List A) → Tvl.any_of (λ x. some (p x)) xs ≡ vote_of p xs
any_of-vote_of p xs = any_of-fold (λ x. some (p x)) xs ∙ foldr-vote_of p xs

both_votes {ℓ κ} :
    {A : Type ℓ} {B : Type κ} (p : A → Bool) (q : B → Bool) (xs : List A) (ys : List B)
    → or_ (vote_of p xs) (vote_of q ys)
      ≡ (if is_empty xs && is_empty ys then none else some (any_of p xs || any_of q ys))
unfolding or_
both_votes p q [] [] = refl
both_votes p q [] (y ∷ ys) = ground arith
both_votes p q (x ∷ xs) [] = ground arith
both_votes p q (x ∷ xs) (y ∷ ys) = ground arith

-- The vote on a method is none if neither accesses nor method types are given, and else whether its access
-- is one of the accesses or it is of one of the types.
pub class_method_match-any_of :
    (access : List AccessType) (method_types : List MethodType) (m : ClassMethod)
    → (class_method_match access method_types m ≡ (
        if is_empty access && is_empty method_types
        then none
        else some
            (any_of (λ a. m.access is_access a) access || any_of (is_of_type m) method_types)))
unfolding class_method_match access_match method_type_match or_
class_method_match-any_of access method_types m =
    let a = any_of-vote_of (λ a. m.access is_access a) access in
    let t = any_of-vote_of (is_of_type m) method_types in
    ap (λ v. or_ v (Tvl.any_of (λ mt. some (is_of_type m mt)) method_types)) a
    ∙ ap (or_ (vote_of (λ a. m.access is_access a) access)) t
    ∙ both_votes (λ a. m.access is_access a) (is_of_type m) access method_types
