-- ===== src/Edify.antt =====
-- edify, the language of update scripts (edify/expr.c, edify/expr.h, edify/parser.y).
pub mod State
pub mod Text
pub mod Eval
pub mod Builtins
pub mod Table
pub mod Grammar
pub mod Keeps
pub mod Suits
pub mod Safety
pub mod Laws
pub mod Sorted
pub mod Lookup
pub mod Registered
mod Tests
