-- ===== src/Tests.antt =====
-- Concrete inputs for the theorems of the other modules.
mod Memory
mod Calls
mod Handlers
mod Lives
mod Sessions
mod Texts
mod Settings
mod Commands
mod Processes
mod Queues
mod Streams
mod Programs
mod Supervisors
