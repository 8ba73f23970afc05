-- ===== src/Minzip.antt =====
-- minzip: the hash table (minzip/Hash.c, Hash.h), archives (Zip.c), and directories (DirUtil.c).
pub mod Bits
pub mod Hash
pub mod Round
pub mod Zip
pub mod Contents
pub mod Dirs
pub mod Extract
