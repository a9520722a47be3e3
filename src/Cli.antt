-- ===== src/Cli.antt =====
-- internal/cli: the commands. What cobra does with flags is not modelled; a command is a function of them.
pub mod Run
pub mod Schedule
pub mod Inspect
