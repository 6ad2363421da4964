-- ===== src/Alloc.antt =====
-- The component-local allocator, apps/ruby/components/Ruby/src/ruby_alloc.c.
pub mod Header
pub mod Malloc
pub mod Mmap
mod Aliases
pub mod Align
pub mod Fields
pub mod Layout
pub mod Place
pub mod Invariant
pub mod Granted
pub mod Scan
pub mod Reuse
pub mod Arena
pub mod Release
pub mod Payload
pub mod Zeroed
pub mod Pages
pub mod Reissue
pub mod Trim
pub mod Wrap
pub mod Realloc
pub mod Client
pub mod System
pub mod Resizing
pub mod Safety
pub mod Isolation
pub mod Owners
pub mod Aligned
