-- ===== src/Cli.antt =====
-- src/cli.cpp and src/cli.hpp: the application, its console, and the vault that its commands use. A
-- command is a handler with an exit code; what CLI11 makes of the arguments is a parameter of `run`.
pub mod Console
pub mod Commands
pub mod Changes
pub mod Run
pub mod Laws
