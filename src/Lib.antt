-- ===== src/Lib.antt =====
-- A verification library for the kernel: the memory of the machine, its allocators, its page tables,
-- its tasks and their scheduler, the system calls, the loader and the devices, as functions on explicit
-- states, with the theorems that make them correct.
--
-- The parts, from the bottom up, with the files of kernel/src that they model:
-- - Memory: memory.c, over a function from addresses to bytes (`memcpy`, `memmove`, `memset`,
--   `memcmp`), and the 64-bit loads and stores that page tables and stacks need.
-- - BootAlloc: physical_page_management.c. `Pmm` holds its static variables; `boot_alloc` hands out
--   the usable regions of the boot memory map.
-- - Frames: page_alloc.c. `Ram` holds the page descriptors, the free list and the bytes of memory;
--   `page_alloc`, `page_free`, `count_free` are the functions of the file, and Frames.Init is
--   `frame_alloc_init`.
-- - Paging: paging.c. Paging.Entry has the entries and the indices of an address, Paging.Walk the walk
--   `vmm_walk` and what is made of it, Paging.Clone the copy of an address space. `translate`, in
--   Paging.Walk.Lookup, is the processor's translation, against which the walk is specified, and
--   Paging.Tree looks at all tables of a space as a tree.
-- - Uaccess: uaccess.c, the check `uva_check_range` of a range of user addresses.
-- - Task, Scheduler, Spawn: task.c, scheduler.c and the tick of timer.c. `Kernel` holds their variables
--   and the registers they set. Task has the table and its slots, Scheduler the choice of the next
--   task and the switches, Spawn the making and ending of tasks and their first stack frames.
-- - Syscall: syscall.c, the six calls and `syscall_dispatch`.
-- - System: the ticks, the calls and the making and ending of tasks as the steps of one relation.
-- - Elf: elf.c, the loader of user programs, `elf_load`.
-- - Boot: of main.c the search `find_module` for a boot module.
-- - Stress: stress_test.c, the test of the page allocator and the page tables that the kernel runs at
--   boot.
-- - Spinlock: spinlock.c, for any number of processors, one atomic instruction at a time.
-- - Ports: io.h and the devices behind its instructions: pic.c in Ports.Pic, pit.c in Ports.Pit, and
--   serial.c in Ports.Uart. The devices are hypotheses, named after the 8259 and the 16550.
-- - Lapic: lapic.c, with the registers of the controller by their physical addresses.
-- - Kheap: kheap.c, the blocks of the kernel's heap.
-- - Console: kprintf.c, and the output of serial.c as the list of bytes sent, which Ports.Uart refines.
-- - Descriptors: gdt.c and idt.c, the descriptors and the tables of them.
-- - Common, Word and Tests: shared names and lemmas, 64-bit words, and concrete inputs.
--
-- How they interact: page tables and stacks are bytes of `Ram`, and the walk takes its new tables from
-- the page allocator. A task's creation takes a slot of the table, an address space and a stack page; a
-- system call finds its task in `current_task`, checks user addresses by a walk, and may switch tasks.
--
-- Conventions. A pointer into the direct map of physical memory is the physical address that it stands
-- for, a pointer into an array is the index, and NULL is `none`. Words are natural numbers, with their
-- wrap-around written out. The kernel runs on one processor and holds its locks with interrupts off,
-- so a critical section is one step. `context_switch` is assembly: a function that calls it ends in
-- `switched` or `suspended`, with the kernel at the call. Other assembly labels, and the offset of
-- the direct map, are the record `Labels`.
--
-- Fuel. A loop that the source bounds by a counter is a recursion on the rounds left. `boot_alloc` has
-- one round more than the map has entries, `check_pages` one round more than the range can touch pages,
-- a segment's loop of `elf_load` one round more than the segment has pages, and a region's loop of
-- `frame_alloc_init` one round more than there are pages below the region's end. `count_free`, the
-- stress test, the length of a string, `sys_wait` and the polling of the serial port take their fuel
-- as an argument, and say when it is spent.
--
-- Not modelled: the rest of main.c (the order of initialisation and demonstrations), the assembly, the
-- functions that only print, and the messages that the others print. The linker scripts, the build
-- files and the user programs hold no code of the kernel.
pub mod Common
pub mod Word
pub mod Memory
pub mod BootAlloc
pub mod Frames
pub mod Paging
pub mod Uaccess
pub mod Task
pub mod Scheduler
pub mod Spawn
pub mod Syscall
pub mod System
pub mod Elf
pub mod Boot
pub mod Stress
pub mod Spinlock
pub mod Ports
pub mod Lapic
pub mod Kheap
pub mod Console
pub mod Descriptors
pub mod Tests
