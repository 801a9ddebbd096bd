-- ===== src/Loader.antt =====
-- pkg/loader: what the loader makes of the maps of a program, and how it passes their contents on.
pub mod Types
pub mod Samples
pub mod Numbers
pub mod Parse
pub mod Watch
pub mod Attach
