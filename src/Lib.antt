-- ===== src/Lib.antt =====
-- Verification of oh-my-os, a small 32-bit x86 kernel in C: its libraries and red-black trees,
-- its page, slab and early memory allocators, its spin lock, its scheduler, its timer and its
-- keyboard, as functions on explicit state, with the theorems that make them correct.
--
-- The program's parts. libs/ holds the data structures that the rest of the kernel uses: byte
-- and string functions (libs/string.c), a byte ring (libs/fifo.c), a circular queue
-- (libs/queue.c) and a growing array (libs/vector.c), each of which moves its elements with
-- `memcpy` and gets its memory from `kmalloc`. mm/kmalloc.c serves `kmalloc` from the page and
-- slab allocators, and before these stand, from a buddy allocator of its own over a static
-- buffer. include/bitops.h, include/log2.h and include/stdlib.h hold the word arithmetic with
-- which the allocators turn a size into an order. mm/page.c hands out blocks of pages, and
-- mm/slab.c cuts single pages into objects of one size; kernel/timer.c counts the time of day
-- from the ticks of the timer. The spin locks that guard the allocators are those of libs/lock.c.
--
-- Conventions. A number is a natural number; a word of 32 bits keeps its wrap-around, as the
-- operations `add32`, `sub32` and `mul32` of Base. A pointer is its address, and memory is a
-- function from addresses to bytes (Memory). A function that changes state takes the state and
-- returns the new one beside its result. A C error code is a value of `Status` (Base), 0 being
-- `success`. A failed assertion halts the kernel and is `none`.
--
-- Base: the names the other files share, tests on numbers, lists, words, error codes, the C
--   integer (Base/Int) and remainders as bounded differences (Base/Wrap).
-- Memory: `memset`, `memcpy` and `memmove` of libs/string.c; Memory/Copy says what they write,
--   Memory/Slice and Memory/Elements read memory as bytes and as elements of a size.
-- CString: the functions of libs/string.c on NUL-terminated strings, and `memcmp`. A loop that
--   runs to the NUL takes fuel; a string of n bytes needs n + 1, and the theorems have that.
-- Number: `reverse_str`, `to_hex` and `hex_to_value` of libs/string.c. Eight rounds of the digit
--   loop are enough for a word of 32 bits.
-- KString: `ksinit`, `ksappend_char` and `kspop_char` of libs/string.c; the answer of `kmalloc` is
--   a parameter.
-- Bits: include/bitops.h, include/log2.h and the rounding macros of include/stdlib.h.
-- Fifo: libs/fifo.c and include/fifo.h. Fifo/Spec is a bounded queue of bytes, and Fifo/Refine
--   that each operation implements it; the size of the buffer is at most 2 ^ 31.
-- Queue: libs/queue.c and include/queue.h. The abstract view is the list of the elements.
-- Vector: libs/vector.c and include/vector.h, with the same view.
-- Links: include/list.h, circular doubly linked lists over a store of links. Links/Ring says which
--   list of nodes a ring of links holds.
-- Kmalloc: the sizes of mm/kmalloc.c. Kmalloc/Early is the buddy allocator of `kmalloc_early`:
--   `alloc_blocks` and `free_blocks` over free lists that are sequences of block numbers. Its
--   splitting loop takes the block's order as fuel and its merging loop 13, one more than the
--   highest order. Kmalloc/Early/Inv is its invariant, in terms of how often the free lists
--   cover each unit of 8 bytes (Kmalloc/Early/Cover).
--   The lemmas of these files hold for any highest order and number of units.
-- Page: mm/page.c, the allocator of pages over two families of free lists. Page/View reads the
--   lists of one kind of pages as the blocks of Kmalloc/Early, Page/Kinds is about what of the two
--   kinds stays apart, and Page/Refine runs `alloc_pages` beside the allocator of blocks on that
--   view. The splitting loop takes the page's order as fuel, the merging loop 11, and the loop of
--   `init_free_pages` as many rounds as pages.
-- Slab: mm/slab.c and include/slab.h. Slab/Stack says that the free list of a page is a stack of
--   distinct objects, Slab/Layout that a new page is so, and Slab/Cache what the cache does. The
--   answers of `alloc_page` and `page_address` are arguments.
-- Lock: libs/lock.c and include/lock.h, as steps of any number of processors, one access of the
--   counter each.
-- Timer: the time arithmetic and the tick handler of kernel/timer.c, for one processor. The loop
--   over the timers takes fuel; Timer/Scan shows when none is enough.
-- RbTree: libs/rb_tree.c and include/rb_tree.h, over a store of nodes. RbTree/Shape says which tree the
--   links hold, RbTree/Path what a place in it is, with the way up to the root, RbTree/Color what the
--   rules of the colours are on a tree and on a way, and RbTree/Order what the order of the ranges is.
--   RbTree/Insert/Broken is the state of the loop of `insert_fixup`, with one red node that may have a
--   red parent; Broken/Recolor, Broken/Settle, Fixup and Loop follow its rounds, Way and Hang the new
--   node to its place, and Correct puts them together. Loops and recursions over pointers take fuel: a
--   tree of n nodes needs n + 1 for its search, its way down, its iteration and its check, and n + 2
--   for an insertion.
-- PageTable: mm/page_table.c, the two levels of page tables over a store of words. PageTable/Walk is the
--   walk of the processor, and says what makes a directory; PageTable/Entry writes an entry of a table,
--   PageTable/Fresh makes a new table, and PageTable/Map goes over a range. The loops take as fuel one
--   more than the pages of the range.
-- Vmalloc: the areas of mm/vmalloc.c. Vmalloc/Tiles says when areas cover addresses without gaps, and
--   Vmalloc/Areas what the state between two calls is; Vmalloc/Start is about `vmalloc_init` and
--   `find_vma`, Vmalloc/Alloc about `alloc_vma` with the insertion of RbTree for the tree of the areas
--   in use. Vmalloc/Free models `free_vma`, and Vmalloc/Use is `vmap` over PageTable. The fuel is that
--   of an insertion in the tree.
-- FileSystem: fs/fs.c and include/fs.h, with the names as strings of CString. Its fuel is that of
--   `strcmp`, one more than the bytes of the name looked for.
-- Segments: the segment descriptors of mm/memory.c.
-- Keyboard: kernel/keyboard.c, the tables and the state machine of the scan codes.
-- Schedule: schedule/schedule.c, the run queue of one processor, a list of Links, and the thread states.
-- Random: libs/math.c.
--
-- The answer of `kmalloc` in Queue and Vector is a parameter, too. The only thing asked of it is
-- that the new memory is apart from the slots and the source, and that it fits in a word.
--
-- `memset`, `memmove`, `memcpy`, `strcmp` and `strcpy` are modelled by their C bodies in
-- libs/string.c. A build that includes include/x86.h takes its inline assembly for them, which is
-- not modelled.
--
-- Not modelled: `vunmap`, `__vmalloc` and `vfree` of mm/vmalloc.c, the printing and the control
-- registers of mm/page_table.c, the scan of the memory map
-- and the paging switch of mm/memory.c, `remove_directory`,
-- `procfs_remove_dir` and `fs_init` of fs/fs.c, the shell, and what is hardware access or assembly:
-- the boot loader, interrupt controllers, start of further processors, console and graphics. Of kernel/timer.c `msleep`, `sleep`,
-- `timer_create` and the port output are left, of schedule/schedule.c the registers, the stack
-- and the directory of a new thread and the switch of the registers. Of libs/string.c `strtol`,
-- `to_str` and the functions on growing strings other than these three are left. `smp_wmb` of
-- the fifo and `kfree`, whose memory no modelled function reads again, have no counterpart. Of
-- mm/kmalloc.c `kfree`, `kfree_early` and the files that print the lists are left, of mm/page.c
-- the file that prints them.
pub mod Base
pub mod Memory
pub mod Bits
pub mod CString
pub mod Fifo
pub mod FileSystem
pub mod KString
pub mod Keyboard
pub mod Kmalloc
pub mod Links
pub mod Lock
pub mod Number
pub mod Page
pub mod PageTable
pub mod Queue
pub mod Random
pub mod RbTree
pub mod Schedule
pub mod Segments
pub mod Slab
pub mod Timer
pub mod Vector
pub mod Vmalloc
