-- ===== src/Tests.antt =====
-- Runs of the model on small inputs, over the database in memory, and the theorems at such inputs.
pub mod Namespaces
pub mod Users
pub mod Client
pub mod Pki
pub mod Config
pub mod Server
pub mod Settings
pub mod Lifecycle
pub mod System
pub mod Events
pub mod Keywords
pub mod Connect
pub mod Declared
pub mod Echo
pub mod Uuid
pub mod Cluster
pub mod Skl
pub mod Executor
