-- ===== src/Tty.antt =====
-- apps/ruby/components/Ruby/src/stub/ruby_syscall_tty.c: the cursor position report, the window size and
-- the attributes of the console.
pub mod Report
pub mod Parse
pub mod Console
pub mod Winsize
pub mod Attributes
