-- ===== src/Vfs.antt =====
-- kernel/vfs.c: the paths, the mount table, the permissions and the files of the root filesystem in
-- memory. A path is the list of its characters, whose end is the NUL.
pub mod Paths
pub mod Mounts
pub mod Perms
pub mod Ramfs
mod Examples
