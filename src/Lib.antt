-- ===== src/Lib.antt =====
-- H3OS: models of the kernel's components, and proofs about them.
--
-- H3OS is a small x86-64 operating system. The boot code hands the kernel the memory map of the
-- Multiboot2 loader; the physical memory manager keeps a bitmap of pages; the heap takes runs of
-- pages from it; the scheduler, the ports, the users and the drivers stand beside these.
--
-- Files and the code they are about:
--   Base            tests, lists, machine words, bits of a byte, counted loops, signed integers
--   Boot            memory/pmm.c (mb2_find), boot/multiboot2.h: the tags of the boot information
--   Memory/Pmm      memory/pmm.c, memory/pmm.h: the bitmap and its operations
--   Memory/Heap     memory/heap.c, memory/heap.h: the first-fit heap
--   Kernel/Sched    kernel/core/sched.c, sdk/include/h3os/sched.h: the tasks and the ready queue,
--                   with the lock as one processor sees it
--   Kernel/Ipc      kernel/core/ipc.c, sdk/include/h3os/ipc.h: the registry of ports
--   Kernel/Adaptive kernel/core/adaptive.c, sdk/include/h3os/adaptive.h: performance profiles
--   Kernel/Interrupts
--                   kernel/arch/x86_64/idt.c: the gates, the interrupt lines and the dispatch
--   Loader          loader/pe.c, loader/pe.h: the loader of PE32+ programs
--   Terminal        applications/terminal/terminal.c: the rows, the input line, the words of a command
--   Security        security/security.c, security/security.h: users and the permission check
--   Kernel/Sync     kernel/sync/sync.c, sdk/include/h3os/sync.h: locks, mutexes and semaphores, with
--                   threads that interleave
--   Kernel/Strings  kernel/core/string.c: memory and string functions over a memory of bytes
--   Kernel/Log      kernel/core/log.c: the ring of the last messages, and their format
--   Memory/Vmm      memory/vmm.c, memory/vmm.h: the page tables
--   Drivers/Keyboard, Drivers/Mouse, Drivers/Rtc, Drivers/Timer
--                   drivers/keyboard/keyboard.c, drivers/mouse/mouse.c, drivers/rtc/rtc.c and
--                   drivers/timer/timer.c
--   Drivers/Pci     drivers/pci/pci.c, drivers/pci/pci.h: the scan of the buses
--   Drivers/Framebuffer
--                   drivers/framebuffer/framebuffer.c, drivers/framebuffer/framebuffer.h: the
--                   surface and the drawing functions
--   Vfs             filesystem/vfs/vfs.c, filesystem/vfs/vfs.h: the file system in memory
--   WindowManager   window_manager/wm.c, window_manager/wm.h: the windows and the mouse
--
-- A component's file holds its state, one record for the file's static variables, and its
-- operations, one function for each function of the C file under the same name; the files below it
-- hold what is proved. Functions take the state and return the new one beside the C result. Static
-- functions of a loop's body or a branch have a name of their own.
--
-- Numbers are natural numbers; u8, u16, u32 and u64 cut them to their width where the code can
-- exceed it, and sub_u64 is the subtraction that wraps. The coordinates of windows, of pixels and
-- of the mouse, and the count of a semaphore, are exact integers, as an overflow of a signed number
-- is undefined in C. A bitmap, a heap and the memory of the boot information are functions from an
-- index or an address. A pointer is an address with 0 for NULL in the heap, and an index into the
-- table where the code points into one.
--
-- Rounds: a walk along pointers, and a wait for a device, takes a number of rounds and returns
-- nothing when they do not suffice. For the tags a round per tag is enough, for the blocks and for the children of a directory one more than the
-- list has, for the clock one more than the reads during an update, for a string one more than it
-- is long, for a line one more than its two distances added up; each theorem about such a walk has its bound as a hypothesis and
-- states that the walk returns. A sleep takes a list: how many timer interrupts arrive in each wait.
-- The walk to the end of the ready queue takes rounds too, and has no bound. Counted loops recurse on their counter.
--
-- The loader's loop over the relocations takes rounds as well, and no bound is proved for it.
--
-- Not modelled: the ports written to set devices up, kpanic, the switch of stacks behind a yield
-- (the source has none), and interleavings of several processors other than those of the locks. The
-- allocators' payload has no contents, and the program that the loader starts is a parameter. The
-- other parts of the repository, system calls, the drawing of windows, the terminal's commands and
-- the other applications, have no model.
pub mod Base
pub mod Boot
pub mod Drivers
pub mod Kernel
pub mod Loader
pub mod Memory
pub mod Security
pub mod Terminal
pub mod Vfs
pub mod WindowManager
