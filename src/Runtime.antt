-- ===== src/Runtime.antt =====
-- include/reflgen/runtime: the registry of type descriptors.
pub mod Registry
