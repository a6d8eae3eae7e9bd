-- ===== src/Types.antt =====
-- The shared data model (packages/shared/src): enumerations, documents and failures.
mod Enums
mod Values
mod Workflow
mod Artifacts
mod Failures
unfoldable pub use Enums.*
unfoldable pub use Values.*
pub use Workflow.*
pub use Artifacts.*
pub use Failures.*
