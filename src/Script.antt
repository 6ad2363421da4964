-- ===== src/Script.antt =====
-- apps/ruby/components/Ruby/src/ruby.c: loading the script, and running it.
pub mod Source
pub mod Filling
pub mod Loading
pub mod Running
