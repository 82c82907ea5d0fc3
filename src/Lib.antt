-- ===== src/Lib.antt =====
-- Nachos, a teaching operating system: a kernel (threads, synchronisation, a file system, virtual
-- memory) that runs on a simulated MIPS machine inside one process of the host.
--
-- Parts and files (paths from the repository's root):
--   Prelude      Boolean tests, arrays as lists, `Option` as the result of code that can abort,
--                bits of a natural number, the integers.
--   BitMap       nachos/utility/bitmap.h and bitmap.cc. Constructor, Mark, Clear, Test, Find and
--                NumClear are `init`, `mark`, `clear`, `test`, `find` and `num_clear`, over the
--                words of the array `map`.
--   FileHeader   nachos/filesys/filehdr.h and filehdr.cc. Allocate, reAllocate and Deallocate,
--                which take their sectors from a BitMap, are `allocate`, `re_allocate` and
--                `deallocate`.
--   OpenFile     nachos/filesys/openfile.h and openfile.cc. ReadAt and WriteAt are `read_at` and
--                `write_at`, over a FileHeader and the bytes of the disk; what WriteAt does with the
--                file of the free map is the arguments `fetch_free_map` and `write_back`.
--   Directory    nachos/filesys/directory.h and directory.cc. Find, Add and Remove are `find`, `add`
--                and `remove` on the table of entries; `Directory.Lookup.lookup` is the finite map
--                that they implement.
--   LinkedList   nachos/utility/list.h, the queues of the kernel.
--   Interrupt    nachos/machine/interrupt.h and interrupt.cc. Schedule, CheckIfDue, OneTick and Idle
--                are `schedule`, `check_if_due`, `one_tick` and `idle`, over a sorted LinkedList;
--                the handlers of the devices are their argument `handle`.
--   TranslationTable, Mmu
--                nachos/machine/translationtable.h, translationtable.cc, mmu.h and mmu.cc. Translate,
--                ReadMem and WriteMem are `translate`, `read_mem` and `write_mem`; what
--                Machine::RaiseException does is their argument `raise`.
--   Mips         nachos/machine/mipssim.h and mipssim.cc, with RaiseException of machine.cc.
--                OneInstruction is `one_instruction`: it fetches by `read_mem` of Mmu, takes the word
--                apart by `decode`, and executes it. Its switch is a chain, `execute`,
--                `execute_branch`, `execute_memory`, `execute_move`, `execute_float`,
--                `execute_compare` and `execute_reserved`, each of which hands on what is not its own.
--                Mult is `mult`, and DelayedLoad `delayed_load`. The exception handler of the kernel
--                is the argument `handler`, the arithmetic of floating point the argument `fpu`.
--   PhysicalMem  nachos/vm/physMem.h and physMem.cc. FindFreePage, RemovePhysicalToVirtualMapping,
--                UnlockPage, ChangeOwner and AddPhysicalToVirtualMapping are `find_free_page`,
--                `remove_mapping`, `unlock_page`, `change_owner` and `add_mapping`; EvictPage is
--                `evict_page`, and its search `find_victim`, on fuel: one turn more than there are
--                pages is enough when no page is locked. What other threads do while it waits is the
--                interface `Others`. `PhysicalMem.Reach.Step` is one operation.
--   AddrSpace    nachos/kernel/addrspace.h and addrspace.cc, for demand paging. Alloc, StackAllocate, Mmap
--                and findMappedFile are `alloc`, `stack_allocate`, `mmap` and `find_mapped_file`.
--   OpenFileTable  nachos/filesys/oftable.h and oftable.cc. Open, Close and Remove are `open_file`,
--                `close` and `remove`, the destructor of an entry `destroy`; what they read from the
--                disk is a `Disk`. FileLock and FileRelease are not modelled.
--   FileSystem   nachos/filesys/filesys.h and filesys.cc. FindDir with decompname, the constructor,
--                Create, Open, Remove, Mkdir and Rmdir are `find_dir`, `format` and `mount`, `create`,
--                `open_file`, `remove`, `mkdir` and `rmdir`, over Directory, FileHeader and BitMap. How
--                these are stored on the disk is the interface `Storage`. The loop of FindDir is on
--                fuel: one round more than the path has characters is enough.
--   SystemCalls  nachos/kernel/exception.cc with nachos/utility/objid.h. ExceptionHandler is
--                `exception_handler`, its switch over the system calls `system_call`, and each case a
--                function of its name. They act on the registers, the table of identifiers and the last
--                error; the rest of the kernel is the interface `Services`. GetLengthParam and the loop
--                of SC_TTY_SEND are on fuel: the length of the text and one more is enough.
--   SwapManager  nachos/vm/swapManager.h and swapManager.cc, over BitMap and the sectors of OpenFile.
--   PageFault    nachos/vm/pagefaultmanager.cc. PageFaultManager::PageFault is `page_fault`, over
--                TranslationTable, PhysicalMem and the mapped files of AddrSpace; the reads, Yield and
--                EvictPage are the interface `Devices`. The loops that wait are on fuel: a page that
--                nobody reads or writes needs one round.
--   Kernel       nachos/kernel/synch.cc, with scheduler.cc and the operations of thread.cc that give
--                up the processor. `Kernel.Reach.Step` is one step of the machine: a call by the
--                running thread, or an interrupt.
--
-- A failed ASSERT and an access outside of an array end the program: their result is `none`. `int`
-- is a natural number where the code has ruled out negative values, or where a file says that they are
-- left out, as for sizes and lengths of files; where a 32-bit pattern matters
-- it is written out with `2 ^ 32`. Semaphore values are integers that do not wrap. Loops over a
-- range are recursion on the rounds left, so they end; `RemoveItem` and the loop over CheckIfDue are on
-- fuel, and their theorems say how much is enough and when none is.
--
-- Not modelled: the simulated devices, processes, loading an ELF file and freeing the pages of a process, the register and stack contexts of threads, the list `g_alive`, FetchFrom and WriteBack of
-- headers and maps, counters, and all printing.
pub mod Prelude
pub mod BitMap
pub mod FileHeader
pub mod OpenFile
pub mod Directory
pub mod OpenFileTable
pub mod FileSystem
pub mod SystemCalls
pub mod LinkedList
pub mod Interrupt
pub mod TranslationTable
pub mod AddrSpace
pub mod Mmu
pub mod Mips
pub mod PhysicalMem
pub mod SwapManager
pub mod PageFault
pub mod Kernel
