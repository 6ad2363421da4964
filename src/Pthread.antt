-- ===== src/Pthread.antt =====
-- apps/ruby/components/Ruby/src/stub/ruby_pthread.c: POSIX threads for exactly one thread.
pub mod Source
pub mod Keys
pub mod Stubs
