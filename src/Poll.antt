-- ===== src/Poll.antt =====
-- apps/ruby/components/Ruby/src/stub/ruby_syscall_poll.c: the fake descriptors and the serial input.
pub mod Table
pub mod Source
pub mod Epoll
pub mod Lookup
pub mod Numbered
pub mod Counters
pub mod Watches
pub mod Control
pub mod Serial
pub mod Delivery
pub mod Queue
pub mod Keeping
pub mod Sound
pub mod Effects
pub mod Machine
pub mod Kinds
pub mod Polling
pub mod Waiting
pub mod Promises
pub mod Ending
pub mod Timeouts
pub mod Fcntl
pub mod FlagLaws
pub mod Readv
pub mod Wired
pub mod Ready
pub mod Wakeup
pub mod Stale
pub mod Permits
pub mod Handover
