-- ===== src/Util.antt =====
-- src/util: the parts that are functions of texts. A text is the list of its bytes.
pub mod Levenshtein
mod Samples
