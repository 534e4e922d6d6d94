-- ===== src/Index.antt =====
-- index/ix_index_handle.h and index/ix_index_handle.cpp: the keys of a B+ tree and one of its nodes.
pub mod Compare
pub mod Node
