-- ===== src/Ts.antt =====
-- The TypeScript front of src/plx_transpile.c: the types in Types, the scans in Scan, and the pass
-- that turns annotations into comments in Preprocess.
pub mod Types
pub mod Scan
pub mod Preprocess
