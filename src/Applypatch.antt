-- ===== src/Applypatch.antt =====
-- applypatch: hashes, little-endian numbers, binary patches and room on the cache partition
-- (applypatch/applypatch.c, utils.c, bspatch.c, bsdiff.c, freecache.c).
pub mod Sha1
pub mod Sink
pub mod Utils
pub mod Bspatch
pub mod FreeCache
pub mod World
pub mod Files
pub mod Apply
mod Tests
