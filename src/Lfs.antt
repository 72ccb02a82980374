-- ===== src/Lfs.antt =====
-- Large files: which files go to LFS (src/kohakuhub/db_operations.py), and the garbage collection of
-- their old versions (src/kohakuhub/api/repo/utils/gc.py).
pub mod Rules
pub mod Gc
