-- ===== src/Enums.antt =====
-- src/common/model/enums.h and enums.cc: the enumerations of the models. An enumerator `kIfEnd` is
-- spelled `k_if_end`, since `if` and `else` are words of the notation here. Enumerators are compared
-- by their values, as in the program.
pub mod Names
use clang_uml.Prelude.{ℕ, Bool, true, ◌||◌, ◌==◌, ◌≡◌, ==_refl}

pub data DiagramType : Type 0 where
  k_class k_sequence k_package k_include : DiagramType

unfoldable pub diagram_value : DiagramType → ℕ
diagram_value DiagramType.k_class = 0
diagram_value DiagramType.k_sequence = 1
diagram_value DiagramType.k_package = 2
diagram_value DiagramType.k_include = 3

infix 50 ◌is_diagram◌
unfoldable pub ◌is_diagram◌ : DiagramType → DiagramType → Bool
unfolding diagram_value
a is_diagram b = diagram_value a == diagram_value b

pub data ModuleAccess : Type 0 where
  k_public k_private : ModuleAccess

pub data AccessType : Type 0 where
  k_public k_protected k_private k_none : AccessType

unfoldable pub access_value : AccessType → ℕ
access_value AccessType.k_public = 0
access_value AccessType.k_protected = 1
access_value AccessType.k_private = 2
access_value AccessType.k_none = 3

pub data RelationshipType : Type 0 where
  k_none k_extension k_composition k_aggregation k_containment k_ownership : RelationshipType
  k_association k_instantiation k_friendship k_alias k_dependency : RelationshipType
  k_constraint : RelationshipType

unfoldable pub relationship_value : RelationshipType → ℕ
relationship_value RelationshipType.k_none = 0
relationship_value RelationshipType.k_extension = 1
relationship_value RelationshipType.k_composition = 2
relationship_value RelationshipType.k_aggregation = 3
relationship_value RelationshipType.k_containment = 4
relationship_value RelationshipType.k_ownership = 5
relationship_value RelationshipType.k_association = 6
relationship_value RelationshipType.k_instantiation = 7
relationship_value RelationshipType.k_friendship = 8
relationship_value RelationshipType.k_alias = 9
relationship_value RelationshipType.k_dependency = 10
relationship_value RelationshipType.k_constraint = 11

pub data MessageType : Type 0 where
  k_call k_return k_if k_else k_else_if k_if_end k_while k_while_end k_do k_do_end : MessageType
  k_for k_for_end k_try k_catch k_try_end k_switch k_case k_switch_end : MessageType
  k_conditional k_conditional_else k_conditional_end k_co_return k_co_await : MessageType
  k_co_yield k_none : MessageType

unfoldable pub message_value : MessageType → ℕ
message_value MessageType.k_call = 0
message_value MessageType.k_return = 1
message_value MessageType.k_if = 2
message_value MessageType.k_else = 3
message_value MessageType.k_else_if = 4
message_value MessageType.k_if_end = 5
message_value MessageType.k_while = 6
message_value MessageType.k_while_end = 7
message_value MessageType.k_do = 8
message_value MessageType.k_do_end = 9
message_value MessageType.k_for = 10
message_value MessageType.k_for_end = 11
message_value MessageType.k_try = 12
message_value MessageType.k_catch = 13
message_value MessageType.k_try_end = 14
message_value MessageType.k_switch = 15
message_value MessageType.k_case = 16
message_value MessageType.k_switch_end = 17
message_value MessageType.k_conditional = 18
message_value MessageType.k_conditional_else = 19
message_value MessageType.k_conditional_end = 20
message_value MessageType.k_co_return = 21
message_value MessageType.k_co_await = 22
message_value MessageType.k_co_yield = 23
message_value MessageType.k_none = 24

infix 50 ◌is_access◌ ◌is_relationship◌ ◌is_message◌
unfoldable pub ◌is_access◌ : AccessType → AccessType → Bool
unfolding access_value
a is_access b = access_value a == access_value b

unfoldable pub ◌is_relationship◌ : RelationshipType → RelationshipType → Bool
unfolding relationship_value
a is_relationship b = relationship_value a == relationship_value b

unfoldable pub ◌is_message◌ : MessageType → MessageType → Bool
unfolding message_value
a is_message b = message_value a == message_value b

unfoldable pub is_return : MessageType → Bool
unfolding ◌is_message◌
is_return t =
    t is_message MessageType.k_return
    || t is_message MessageType.k_co_return
    || t is_message MessageType.k_co_yield

pub is_message_refl : (t : MessageType) → (t is_message t) ≡ true
unfolding ◌is_message◌
is_message_refl t = ==_refl (message_value t)
