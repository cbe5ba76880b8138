-- ===== src/Lib.antt =====
-- nkos: a 64-bit kernel for the PC with its boot loader, of which this library models the parts
-- that decide something: the memory map that the BIOS reports and what the kernel makes of it, the
-- formatted print of the kernel and of its boot stage, its allocators of pages and of objects, what it asks
-- the processor about caches, and of the loader the text terminals, the heap, the devices with their paths, and
-- the text of UUIDs.
--
-- E820 models kernel/e820.c. The table of `struct e820_t` is the list of its used entries. E820 has
-- one function per C function; the body of the loop of `e820_overlap` is `round`, with `carve` for the
-- branch that splits an entry, and the index i is kept only for the test against E820_ENTRIES. Sums
-- and differences of addresses wrap at 2 ^ 64. E820.Spec says what a table means: the highest type at
-- an address, how many entries hold it. E820.Cases, Rounds, Overlap, Coalesce and Boot follow the code
-- from one round to `e820_init`. The loop takes fuel: each round that does not move on makes the sum
-- of the sizes smaller, so that any fuel above the sum of the sizes is enough.
--
-- Kvprinto models kernel/utl/printf.c. Classes holds `cclass` and `get_class`, Jumps the states and
-- the ten jump tables, one function by clauses for each array; Itoa and Fields the digits and the
-- layout of a field, and Machine the labels and the loop over the format string. The characters that
-- `out->output` was called with are a list. An argument is a machine word or a string. Two things
-- that the code reads without defining them are parameters: the byte behind `cclass`, and what `fmt`
-- holds at the start. The loop over the format is structural; `itoa_loop` takes the room in its buffer
-- for fuel, and the code itself stops there. The other files prove theorems on these parts.
--
-- KsVprintf models kernel/boot/utl/printf.c, the same for the boot stage, in 32 bits and without modifiers: Jumps its
-- tables and Machine its loop; what that file repeats of the kernel's is Kvprinto's. Numbers, Tables, Agree
-- and Runs compare the two.
--
-- Terminal models loader/krn/tm.c. `Term` is `struct term_t`, the function pointer `state` an
-- enumeration, the video memory a list of bytes; an operation that would access a byte outside it, or
-- a parameter outside `par`, gives none. `settle` is the loop of `tm_putchar` that scrolls, with the
-- row of the cursor for fuel, which is enough as each turn makes it smaller. Sequences are read by
-- `tm_state_esc` and `tm_state_csi`, and `sgr` is the switch over colours. Terminal.Calls follows calls that name a
-- terminal by its number.
--
-- Palloc models the allocators of physical pages in kernel/mm. Palloc has the calls of palloc.c, through
-- a record of functions for `struct palloc_vtbl_t`, with `Answer` for a failed assertion; Bootstrap is
-- palloc_bootstrap.c, whose zones come from the list that E820 leaves, Contiguous is
-- palloc_contiguous.c, which takes its zones from there, and Buddy is palloc_buddy.c, with the page
-- descriptors as a function of the page number. `foreach` functions are the lists of the calls they
-- make. The loops over pages take fuel, one turn for each page of the range, and end by themselves.
-- Palloc.Chosen, Blocks, Usable, Pieces, Runs and Free hold the theorems. Zones models kernel/mm/zone.c.
--
-- Bitmap models kernel/mm/palloc_bitmap.c. The words of a bitmap are a function from orders and numbers of blocks
-- to bits, of which those that the zone has can be accessed. The inner loops over addresses take as fuel the
-- number of the smaller blocks in a block, and give none if it is used up. Bitmap.Setup has `_init` and what
-- it calls; Shape, Inside and Touches say where the blocks of an order lie, Find, Below, Above and Claim
-- follow `_alloc`, Clear, Release, Free and Undo `_free`, NewZone and Reserve `_init`.
--
-- Slab models kernel/mm/slab.c. A slab holds the chain of its free objects, a cache its three chains of slabs; `Sa`
-- is `struct sa_t` with the caches by number, and `slab_allocate` takes as fuel how deep calls of it in
-- calls of it may go: one for small objects, and two where `_slab_grow_large` gets its structures from caches of small objects.
-- Slab.Layout says what fits in a page, Page where the objects lie, Objects and Allocate which one is given out.
--
-- Pg models the part of kernel/mm/pg.c that divides a region into mappings of 4 kB and 2 MB; its loops
-- take as fuel the number of small pages of the region, one turn for each at most.
--
-- CpuInfo models kernel/cpuinfo.c, from which kernel/mm/slab.c has the size of a line; what cpuid reports is a
-- function from the number of the leaf, and the loop takes fuel above the first leaf that reports no cache.
--
-- Dm models loader/krn/dm.c and loader/mod/mod_extp.c: Dm the reads, Dm.Ring the modules and the rings of
-- devices, as lists from the head on, and Dm.Open how a file name finds its device, through DmPath and Uuid.
-- For a read a device is a drive, or an extended partition of a device; the loop over sectors takes the number of bytes for fuel, of which each turn reads one or more.
--
-- DmPath models loader/krn/dm_path.c, the paths of the device manager: a text with the bounds s and p
-- of the current name. DmPath.Names says what the names of a text are, DmPath.Walk is a caller that
-- reads them one by one, with fuel above the number of bytes left, and Prepend puts a path before
-- another. What stands in memory behind the text is a parameter, as `strchr` searches on there.
--
-- Heap models loader/krn/mm.c, the heap of the loader: its chunks and small bins, Heap.Large the trees of large chunks,
-- Search the choice of a chunk, and Alloc what takes chunks and gives them back. The memory is a function from
-- addresses to words, so a chunk is its address and its neighbours in a ring share it; the arena is kept apart from it.
-- The loops over trees take fuel, of which 2 is enough while there is one free chunk. Heap.Arena says what the
-- heap promises when blocks are given back in the reverse order: a stack of blocks with one room behind them, which
-- Tags, Only, Find, Cut and Split prepare for Malloc, Free, Init, Runs and Blocks. Rings and Unlink treat the rings
-- of any number of chunks, Slots the bins and keys of large ones.
--
-- Uuid models loader/utl/uuid_parse.c and loader/utl/uuid_unparse.c, with the end of a list for the NUL
-- of a text and the number of characters that are left for fuel.
--
-- Common has the shared tests on numbers, lists and words, Common.Memory a block of bytes with
-- `memmove` and `memset`, and Common.Masks the rounding by masks.
--
-- Not modelled: the assembly of the boot path and the routines it calls through the BIOS, console and
-- serial output, the install tools, and the parts that only pass calls on. The walk through
-- the page tables of kernel/mm, the calls that map the bitmaps, and of the device manager
-- of the loader the partition tables and the calls on open files are not modelled.
pub mod Bitmap
pub mod Common
pub mod CpuInfo
pub mod Dm
pub mod DmPath
pub mod E820
pub mod Heap
pub mod KsVprintf
pub mod Kvprinto
pub mod Palloc
pub mod Pg
pub mod Slab
pub mod Terminal
pub mod Uuid
pub mod Zones
