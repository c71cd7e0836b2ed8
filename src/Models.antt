-- ===== src/Models.antt =====
-- toolbox/models.py: the data of the program, and the scope policy of a toolset record.
mod Scopes
mod Error
mod Record
mod Document
pub mod Policy
unfoldable pub use Scopes.*
unfoldable pub use Error.*
unfoldable pub use Record.*
unfoldable pub use Document.*
