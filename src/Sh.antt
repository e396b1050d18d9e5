-- ===== src/Sh.antt =====
-- sh.c: the parser of the shell. The text from `*ps` to `es` is the list of its bytes, none of them 0.
pub mod Syntax
pub mod Token
pub mod Parse
pub mod Result
pub mod Lexer
pub mod Shape
pub mod Accepts
mod Tests
