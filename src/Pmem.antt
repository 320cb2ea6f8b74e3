-- ===== src/Pmem.antt =====
-- kernel/mm/pmem.c: physical pages. The boot allocator is a bitmap with first fit (Pmem/Bitmap),
-- and the allocator proper a binary buddy system (Pmem/Buddy). Pages are named by their index in
-- `pagemap`, so an address is its index times `pg_size`.
pub mod Orders
pub mod Bitmap
pub mod Buddy
mod Tests
