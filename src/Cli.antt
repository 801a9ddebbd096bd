-- ===== src/Cli.antt =====
-- pkg/cli: the commands. What they share: the options of every command (internal/options/opts.go).
pub mod Options
pub mod Registry
pub mod Show
pub mod Run
pub mod Publish
pub mod Build
pub mod Init
mod Tests
pub mod Describe
