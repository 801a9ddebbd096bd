-- ===== src/Tui.antt =====
-- pkg/tui: which entries the terminal shows, and the tables that it shows them in.
pub mod Filter
pub mod Table
pub mod Screen
pub mod Display
pub mod Pipe
