-- ===== src/Lib.antt =====
-- Cerius, a 64-bit bootloader: a model of its memory manager and of the logic of its drivers, with
-- the theorems about them.
--
-- The program and the files:
-- - bootloader/common/RangePair: Range.antt, an address range as a pair of numbers, and its order.
-- - bootloader/memory/AvlTree: Avl.antt. `AvlEntry<T>` is the data type `AvlEntry T C`, whose `null`
--   is the null pointer; `C` holds the fields of a subclass, and the class `EntryClass` its virtual
--   methods. `add`, `del`, `rebalance`, `replace_ptr` and `find_bound` are the methods `add`,
--   `del`, `rebalance`, `replacePtrWithGreatestOrSmallest` and `findBound`.
-- - bootloader/memory/AslrTree: Aslr.antt, the subclass with the cached sums, and the random choice.
-- - bootloader/memory/AddressSpaceManager: Space.antt, an address space as two trees of its free
--   ranges, on which `alloc` and `free` work.
-- - bootloader/memory/PhysicalSpaceManager and bootloader/memory/LinearSpaceManager: Manager.antt,
--   the two address spaces, each such a pair of trees, behind the lock of bootloader/memory/Reserve.
-- - bootloader/memory/PrimitiveHeap: Bitmap.antt, the bits of a word (BitmapHelper), and
--   PrimitiveHeap.antt, the heap for objects of one size.
-- - bootloader/memory/Pager: Pager.antt, the page tables with `lintophy` and `pagein`, and Pageout.antt,
--   `pageout`. A table is a node at its linear address; the theorems use a ghost map `place` of the
--   height and the block of each table.
-- - bootloader/memory/Heap: Heap.antt, the arrays of the heap, over the trees of Space.antt.
-- - bootloader/drivers/pci: Pci.antt, the enumeration of the devices.
-- - bootloader/memory/Initializer: Initializer.antt, the ranges that are handed to the managers.
-- - bootloader/drivers/Ata/Ide: Ide.antt, the disks of IDE controllers, over the machine's ports.
-- - bootloader/drivers/mbr and bootloader/drivers/Gpt: Partitions.antt, the partition tables.
-- - bootloader/shared_ptr: Pointers.antt, `unique_ptr` and `shared_ptr` over a store of pointers.
-- - bootloader/drivers/display8025_col: Display.antt, the text screen.
-- The managers keep their free ranges in the trees, the trees' entries come from primitive heaps,
-- whose chunks come from the reserve, itself a primitive heap that is refilled by the managers; the
-- reserve's lock keeps that circle from running while a manager is in the middle of an operation.
--
-- How the code is written down: numbers are natural numbers, and an operation on `uint64_t` wraps
-- at 2 ^ 64 (Base/Words.antt). A function that can fail an assertion returns a `Result`
-- (Base/Results.antt): `kassert` fails with a fault, as the program stops there; a null pointer
-- that is followed, a division by zero and a variable that is read before it is written are faults
-- too. A theorem that says `Returns P r` states that `r` is a result, not a fault, and has `P`.
-- An object that is changed in place is a state that is passed on.
--
-- Bounds and fuel: the trees are finite, so every function on them recurses on the tree and needs
-- no fuel. The walk over the PCI buses has the depth of nested bridges as fuel; 256 is enough where a
-- bridge leads to a bus of a higher number, as PCI has it, since a bus number is a byte. The loop of
-- `trim` has the number of available units as fuel, since a round takes a chunk's units away.
-- The loops that poll an IDE disk have a number of polls as fuel, and a theorem about them says within
-- how many polls the disk answers; the loop of `Read` over its chunks has the number of sectors and
-- one more, since a round reads at least one.
-- The functions of the pager recurse on the height of a table; that the reserve has enough new tables is
-- a hypothesis, with a number that is computed from the range.
-- The heights and counts of the trees are `int` in the source and unbounded here: a tree of height
-- 2 ^ 31 does not fit into memory. The `int` arithmetic of `findOptimalELength`, which a large chunk
-- overflows, faults where it does.
--
-- Not modelled: the allocation of the trees' own entries, which is taken to succeed; what the reserve
-- does when its last lock goes, a parameter of the managers; the small objects
-- and the lists of live objects of bootloader/memory/Heap, and bootloader/memory/MemoryManager, which
-- stand on the parts that are modelled; `invlpg`, since
-- the model has no cache of translations; the ports and
-- registers of AHCI disks, the display and the keyboard, the interrupt handlers and the assembly
-- stages, which are input and output.
pub mod Base
pub mod Order
pub mod Range
pub mod Avl
pub mod Aslr
pub mod Space
pub mod Bitmap
pub mod Display
pub mod Heap
pub mod Ide
pub mod Initializer
pub mod Manager
pub mod Pageout
pub mod Pager
pub mod Partitions
pub mod Pci
pub mod Pointers
pub mod PrimitiveHeap
pub mod Examples
