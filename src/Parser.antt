-- ===== src/Parser.antt =====
-- `class Parser` of src/parser_core.cpp, a module for each group of its methods.
pub mod State
pub mod Cursor
pub mod Tokens
pub mod References
pub mod Namespaces
pub mod Validation
pub mod Markup
pub mod Dtd
pub mod Doctype
pub mod Values
pub mod StartTag
pub mod Content
pub mod Run
pub mod Events
pub mod Progress
