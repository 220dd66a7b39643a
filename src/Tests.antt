-- ===== src/Tests.antt =====
-- The definitions on concrete inputs, and the theorems applied to some.
mod HashRuns
mod DomainRuns
mod PacketRuns
mod UserRuns
mod BlobRuns
mod ShellRuns
mod CoreRuns
mod AdtRuns
