-- ===== src/Clock.antt =====
-- apps/ruby/components/Ruby/src/stub/ruby_syscall_clock.c: a clock that advances when it is read.
pub mod Source
pub mod Readings
