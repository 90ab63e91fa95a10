-- ===== src/Fuse.antt =====
-- backend/app/fuse_server.py: the file system that Samba exports.
pub mod Cache
pub mod Inodes
pub mod Access
