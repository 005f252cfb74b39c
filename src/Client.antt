-- ===== src/Client.antt =====
-- The terminal client: the messages of client/messages.go, and the history and the loop over the lines
-- of commands/cli.go.
pub mod Connect
pub mod Messages
pub mod History
pub mod Session
