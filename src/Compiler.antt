-- ===== src/Compiler.antt =====
-- The workflow compiler (packages/runtime/src/compiler).
pub mod Normalize
pub mod Variables
pub mod Cycles
pub mod Graph
