-- ===== src/Fs.antt =====
-- apps/ruby/components/Ruby/src/ruby_syscall_fs.c: names and files of the CPIO archive.
pub mod Source
pub mod Paths
pub mod Files
pub mod Open
pub mod Opened
pub mod Mapped
