-- ===== src/Shell.antt =====
-- userland/sh.c: the line editor of the shell and the parser of its command lines.
pub mod Editor
pub mod Line
pub mod Buffer
pub mod Edits
pub mod Moves
pub mod Keys
pub mod Overflow
pub mod Parser
pub mod Fuel
pub mod Grammar
pub mod Reads
pub mod ReadsPipe
pub mod ReadsLine
mod Tests
mod ParserTests
