-- ===== src/Strbuild.antt =====
-- src/plx_strbuild.c: a growable text buffer in expanded form, appended to in place. `sb_ensure`
-- and `make_expanded_sb` are in Buffer, and `plx_sb_append` with the store of expanded objects in
-- Append.
pub mod Buffer
pub mod Append
