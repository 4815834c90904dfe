-- ===== src/Tests.antt =====
-- The theorems applied at concrete inputs.
mod Sessions
mod VaultTests
mod EntryTests
mod ServiceTests
mod ModuleTests
mod PluginTests
mod IndexTests
mod DaemonTests
mod DeliveryTests
mod ScriptTests
mod ConfigTests
mod GrammarTests
mod BufferTests
