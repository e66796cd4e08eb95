-- ===== src/Enums/Names.antt =====
-- The names of the enumerators (`to_string` and `from_string` of src/common/model/enums.cc). The name of
-- the message type `kNone` is the empty text, behind an assertion.
use clang_uml.Prelude.{Option, none, some, String, ◌≡◌, refl, if◌then◌else◌, str_eq, eq_iff, arith}
use clang_uml.Enums.{DiagramType, ModuleAccess, AccessType, RelationshipType, MessageType}

unfoldable pub relationship_to_string : RelationshipType → String
relationship_to_string RelationshipType.k_none = "none"
relationship_to_string RelationshipType.k_extension = "extension"
relationship_to_string RelationshipType.k_composition = "composition"
relationship_to_string RelationshipType.k_aggregation = "aggregation"
relationship_to_string RelationshipType.k_containment = "containment"
relationship_to_string RelationshipType.k_ownership = "ownership"
relationship_to_string RelationshipType.k_association = "association"
relationship_to_string RelationshipType.k_instantiation = "instantiation"
relationship_to_string RelationshipType.k_friendship = "friendship"
relationship_to_string RelationshipType.k_dependency = "dependency"
relationship_to_string RelationshipType.k_alias = "alias"
relationship_to_string RelationshipType.k_constraint = "constraint"

unfoldable pub access_to_string : AccessType → String
access_to_string AccessType.k_public = "public"
access_to_string AccessType.k_protected = "protected"
access_to_string AccessType.k_private = "private"
access_to_string AccessType.k_none = "none"

unfoldable pub module_access_to_string : ModuleAccess → String
module_access_to_string ModuleAccess.k_public = "public"
module_access_to_string ModuleAccess.k_private = "private"

unfoldable pub message_to_string : MessageType → String
message_to_string MessageType.k_call = "call"
message_to_string MessageType.k_return = "return"
message_to_string MessageType.k_if = "if"
message_to_string MessageType.k_else = "else"
message_to_string MessageType.k_else_if = "else if"
message_to_string MessageType.k_if_end = "end if"
message_to_string MessageType.k_while = "while"
message_to_string MessageType.k_while_end = "end while"
message_to_string MessageType.k_do = "do"
message_to_string MessageType.k_do_end = "end do"
message_to_string MessageType.k_for = "for"
message_to_string MessageType.k_for_end = "end for"
message_to_string MessageType.k_try = "try"
message_to_string MessageType.k_catch = "catch"
message_to_string MessageType.k_try_end = "end try"
message_to_string MessageType.k_switch = "switch"
message_to_string MessageType.k_case = "case"
message_to_string MessageType.k_switch_end = "end switch"
message_to_string MessageType.k_conditional = "conditional"
message_to_string MessageType.k_conditional_else = "conditional else"
message_to_string MessageType.k_conditional_end = "end conditional"
message_to_string MessageType.k_co_return = "co_return"
message_to_string MessageType.k_co_yield = "co_yield"
message_to_string MessageType.k_co_await = "co_await"
message_to_string MessageType.k_none = ""

unfoldable pub diagram_to_string : DiagramType → String
diagram_to_string DiagramType.k_class = "class"
diagram_to_string DiagramType.k_sequence = "sequence"
diagram_to_string DiagramType.k_package = "package"
diagram_to_string DiagramType.k_include = "include"

-- `none` is the exception for an invalid name.
unfoldable pub from_string : String → Option DiagramType
from_string s =
    if str_eq s "class"
    then some DiagramType.k_class
    else if str_eq s "sequence"
    then some DiagramType.k_sequence
    else if str_eq s "include"
    then some DiagramType.k_include
    else if str_eq s "package"
    then some DiagramType.k_package
    else none

read_back : (t : DiagramType) → from_string (diagram_to_string t) ≡ some t
unfolding from_string diagram_to_string
read_back DiagramType.k_class = refl
read_back _ = refl

read_only : (s : String) (t : DiagramType) → from_string s ≡ some t → diagram_to_string t ≡ s
unfolding from_string diagram_to_string
read_only s t h =
    ground (arith, eq_iff s "class", eq_iff s "sequence", eq_iff s "include", eq_iff s "package", h)

-- The type of a diagram is read back from its name, and a name from which a type is read is the name
-- of that type.
pub from_string-to_string :
    ((t : DiagramType) → from_string (diagram_to_string t) ≡ some t)
    × ((s : String) (t : DiagramType) → from_string s ≡ some t → diagram_to_string t ≡ s)
from_string-to_string = (read_back, read_only)
