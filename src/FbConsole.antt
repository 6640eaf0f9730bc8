-- ===== src/FbConsole.antt =====
-- kernel/console/fb_console.c: the terminal on the frame buffer. FbConsole.Screen has the cells and the
-- cursor, FbConsole.Escapes the control sequences; drawing the cells as pixels is not modelled.
pub mod Screen
pub mod Escapes
pub mod Inv
pub mod Keep
pub mod Column
pub mod Bounds
pub mod Scroll
mod Tests
