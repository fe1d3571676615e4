-- ===== src/Security.antt =====
-- kernel/security.c and kernel/posix.c: roles and capabilities, the user database, and the check of
-- passwords. `Sha` has the hash, `Passwd` the parser of /etc/passwd.
pub mod Roles
pub mod Users
pub mod Sha
pub mod Passwd
mod Examples
