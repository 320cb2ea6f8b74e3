-- ===== src/Lib.antt =====
-- Verification of OSV, a teaching kernel for x86-64 written in C.
--
-- Parts, files and correspondence. A function has a definition of the same name, without its suffix
-- `_internal`; the two branches of pmem_nalloc_internal are boot_nalloc and buddy_nalloc, and that
-- of pmem_nfree_internal for the page map is buddy_nfree. Helpers are branches and loops of the
-- function that uses them.
--   Base      shared names, Boolean tests, lists, indexed families, error codes
--             (include/lib/errcode.h)
--   Links     kernel/list.c: the links of all nodes as one heap. Ring is a chain of links, Sequence
--             the lists as the other parts see them.
--   Str       lib/string.c: Copy has memset, memcpy and memmove, Strncpy that function, Compare
--             strlen, memcmp and strcmp. Strings end at a NUL in memory.
--   Bbq       kernel/bbq.c: the ring of 512 bytes, with its two 32-bit counters. Refine relates it
--             to a list, Wrap follows the counters over 2^31, Monitor has any number of threads
--             that wait on the two condition variables of kernel/synch.c.
--   Pipe      kernel/pipe.c on top of Bbq: Reading and Writing are its loops, Transfer what callers
--             see. A call is followed until it returns or has to sleep.
--   Pmem      kernel/mm/pmem.c: Orders are the block sizes, Bitmap the allocator used at boot,
--             Buddy the one used afterwards. Buddy/Cover counts, for each page, the free blocks
--             that it lies in; Search and Alloc follow an allocation, Owned, Merge, Free and Owners
--             a block on its way back, Refs has the reference counts.
--   Kmalloc   kernel/mm/kmalloc.c on top of pmem_nalloc, whose answer is an argument: Slots is one
--             slab, Cache and Objects a whole cache.
--   Vm        the regions of an address space: kernel/mm/vm.c, and of kernel/syscall.c
--             validate_ptr and sys_sbrk.
--   Fd        the descriptor table and the reference counts of files: kernel/syscall.c,
--             kernel/proc.c and kernel/fs/fs.c. Lowest is the search for a descriptor, Counts and
--             Closing follow the counts.
--   Paths     path names of kernel/fs/fs.c and the walk through directories (Walk), with the file
--             system's lookup as an argument.
--   Radix     kernel/radix_tree.c: trees as values. Slots is the well-formedness, Digits the indices on
--             the levels, Insert, Remove and Levels the operations, Map what a client sees.
--   Disk      kernel/bdev.c as the journal uses it: buffers with their locks and counts, and the
--             blocks on the disk.
--   Journal   kernel/fs/jbd.c on top of Disk, with the journal's place on the disk from
--             kernel/fs/sfs/sfs.c. Writing, Phases, Header and Applying are the parts of a commit,
--             Atomic the whole of it, Logging what a transaction collects, Retry a failed commit.
--   Proc      kernel/proc.c: fork, exit and wait on the process table (Waiting, Lifecycle).
--   Vpmap     arch/x86_64/kernel/mm/vpmap.c: Entries and Pages are a store in the four levels of
--             tables, Budget the tables that it takes, Mapping, Unmapping and Perms the calls.
--   Pgfault   handle_page_fault of kernel/pgfault.c on top of Vpmap.
-- Modules called Tests hold the theorems applied to concrete states.
--
-- How the parts meet: a pipe holds a ring, and sys_pipe puts its two files into the descriptor
-- table, where fs_close_file calls pipe_close; kmem_cache_alloc takes its slabs from pmem_nalloc;
-- system calls that take a buffer ask validate_ptr; the journal writes its blocks through the cache,
-- and fork copies the descriptors with reopen_all.
--
-- Conventions. Numbers are natural numbers; machine arithmetic has its wrap-around written out, an
-- `int` being its 32-bit pattern. A failed kassert and a panic are results, but for assertions on
-- pointers that are not NULL, and those of merge_block and of the find_buddy that it calls. Objects
-- in memory are known by numbers instead of addresses, and C's linked lists are sequences outside
-- Links. A critical section under a lock is one step. Loops run on the number of rounds left, which is their
-- bound in the source (512 bytes, 11 orders, 128 descriptors, the pages of the bitmap); freeblocks_insert_range
-- has fuel, for which one round for each page is enough, as its theorem shows, the string functions
-- one for each character and the NUL, and the walk along a path one for each name. The commits that
-- jbd_end_txn tries again have fuel too, and what runs out of it is a result of its own. Where code
-- needs pages or nodes, it has a budget: the number that it gets before an allocation fails. The
-- cache takes from its state the answers of bdev_get_blk, and the number of blocks that are
-- written before the power fails. jbd_recover is empty; recovery is specified as the copying that the
-- layout in include/kernel/jbd.h asks for. Indices of radix trees are below 2^30, virtual
-- addresses are taken with equal bits from 48 on, as far as the tables tell them apart.
--
-- Not modelled: device drivers, interrupts, assembly and boot code, which act on hardware; the
-- copying and destroying of page tables; the inode cache and the disk format; the
-- scheduler, and of processes the loading of programs; the set-up of the page map from the boot
-- allocator's bitmap; the request queue of a block device; user programs.
pub mod Base
pub mod Links
pub mod Str
pub mod Bbq
pub mod Pipe
pub mod Pmem
pub mod Kmalloc
pub mod Vm
pub mod Fd
pub mod Paths
pub mod Proc
pub mod Radix
pub mod Disk
pub mod Journal
pub mod Vpmap
pub mod Pgfault
