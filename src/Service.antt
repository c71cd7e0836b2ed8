-- ===== src/Service.antt =====
-- toolbox/service.py: `ToolboxService`, one child module for each part of its lifecycle logic.
pub mod Support
pub mod Steps
pub mod Startup
pub mod Activate
pub mod Refresh
pub mod Deactivate
pub mod Unregister
pub mod Register
pub mod Restore
pub mod ClearStale
pub mod Health
pub mod Mounted
pub mod References
pub mod Contracts
pub mod Batch
pub mod Programs
pub mod Operations
