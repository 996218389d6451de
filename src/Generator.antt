-- ===== src/Generator.antt =====
-- generator/src: the parts of the generator that work on text and tokens alone.
pub mod AttributeScan
