-- ===== src/Random.antt =====
-- apps/ruby/components/Ruby/src/stub/ruby_syscall_random.c: a fixed xorshift sequence.
pub mod Source
pub mod Fill
pub mod Nonzero
