-- ===== src/Lib.antt =====
-- clang-uml: the models behind the diagrams.
--
-- clang-uml reads C++ with Clang and draws class, sequence, package and include diagrams. A visitor of
-- the syntax tree fills the model of a diagram; filters of the configuration decide what the model
-- keeps; the model is finalized; generators print it. The library models what lies between the
-- visitors and the generators. Elements have global ids, which are numbers here;
-- the local ids that the sequence visitor resolves at its end are numbers that no global id has.
--
-- Parts, and the files that model them (paths of the program are from the repository's root):
--
-- - Enums, Enums.Names: the enumerations of src/common/model/enums.{h,cc} and their names. `kIfEnd` is
--   `k_if_end`.
-- - Tvl: the three-valued logic of src/common/model/tvl.h, a Boolean or none for "undefined".
-- - Filter: `diagram_filter` and its groups (src/common/model/filters/diagram_filter.{h,cc}). A filter is
--   its vote on an element of a diagram that is fixed. Filter.Namespaces and Filter.Context are the
--   namespace filter and the context filter of class diagrams; a regular expression is its test of a
--   text. The context goes over the elements of the views of a diagram, which are those of its tree.
--   Filter.Ancestry is the subclass and the parents filter, Filter.Members those of methods and of access in a
--   module.
-- - Sequence: src/sequence_diagram/model. Sequence.Message holds messages, activities and participants,
--   Sequence.Diagram the operations that the visitor calls to add messages and statements,
--   Sequence.Blocks `finalize`, Sequence.Chains the call chains of `from_to` conditions,
--   Sequence.Endpoints the ids at their ends, Sequence.Lambdas the inlining of lambda expressions.
-- - SequenceVisitor: src/sequence_diagram/visitor. SequenceVisitor.Context is the context of the visitor,
--   Messages, Visits and Declarations its Visit handlers, Handlers and Walk its Traverse handlers, which
--   call the operations of Sequence.Diagram; Composition gives the result to `finalize`, and Finalization
--   is the visitor's own `finalize`: local ids to global ones, lambdas to operators, callers of
--   activities. What Clang, the comments, the filter and the builders of the models say of a node is
--   input, and so is the order of the calls that Clang makes of the handlers, a walk.
-- - ClassDiagram: the views of src/class_diagram/model/diagram.cc with lookup, the removal of redundant
--   dependencies and the filtering loop; elements and relationships are those of src/common/model.
--   An alias is kept as the id that it formats. ClassDiagram.Parents is `get_parents`.
-- - NestedTrait: the tree of packages and elements of src/common/model/nested_trait.h. The two indexes of
--   a level are searches in the list of its elements.
-- - ModelPath: the lists of names of src/common/model/path.h.
-- - ConfigOption: the options of src/config/option.h, with the overload of `append_value` as an argument.
-- - Eid: the ids of src/common/types.{h,cc}, and the map of src/common/visitor/ast_id_mapper.cc from the ids
--   of the syntax tree to global ones.
-- - Util: `levenshtein_distance` of src/util/levenshtein.cc. A text is the list of its bytes.
-- - Prelude: what the others share; std::set and std::map are lists in ascending order of keys.
--
-- A file named Samples holds small inputs and what the operations do on them.
--
-- Undefined behaviour and exceptions are none of an option: the end of a statement with no start, a
-- nest level below 0, a missing parent package, a callee that is no participant, a reference to the
-- context of the syntax tree where there is none.
--
-- Fuel: the reverse call graph visits one more activity at each call, so one more than the number of
-- activities is enough; each call of `get_parents` but the last finds a class, so one more than the
-- number of classes is enough; the filtering loop removes an element in each round, so one more than the
-- number of elements is enough; inlining needs two more than the greatest rank of a lambda, where
-- the rank goes down along calls between lambdas. A lambda that reaches itself has no rank, and the
-- program does not end on it.
--
-- Not modelled: the visitors of class, package and include diagrams, which build models from the syntax
-- tree of Clang, and in that of sequence diagrams the names of participants; the reading of configuration
-- files; the generators; texts and their formats, and so `split`, `to_string` and `relative` of a path; the
-- filters of modules, callees and the like; the package and include diagrams; logging.
pub mod Prelude
pub mod Enums
pub mod Tvl
pub mod Filter
pub mod Sequence
pub mod ModelPath
pub mod NestedTrait
pub mod ClassDiagram
pub mod ConfigOption
pub mod Eid
pub mod SequenceVisitor
pub mod Util
