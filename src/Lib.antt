-- ===== src/Lib.antt =====
-- Verification of the WeensyOS kernel: page tables, physical pages, processes and the scheduler.
--
-- The program is a small x86-64 kernel. vm.c builds and reads four-level page tables. kernel.c
-- keeps `pageinfo[]`, an owner and a reference count for each of the 512 physical pages, and
-- `processes[]`, 16 process descriptors; its exception handler serves the system calls of the
-- application processes, which allocate pages, fork and exit. lib.c gives the memory copies, and
-- k-hardware.c sets up descriptors and knows the reserved part of memory.
--
-- State. Physical memory is a function from addresses to bytes; page tables lie in it, and a
-- page-table entry is a little-endian 64-bit word. The kernel reads and writes memory at physical
-- addresses, as it does under its identity map. A pointer is its address and NULL is 0; an `int` is
-- its 32-bit pattern, `int8_t` its 8-bit pattern, and sums wrap at the width of their C type.
-- A failed assertion, or a panic, is the outcome `panicked`, and no state follows it.
--
-- Files and sources:
--   Memory, Memory/*      lib.c: memcpy, memmove, memset; 64-bit loads and stores
--   Strings, Strings/*    lib.c: the string functions, rand, srand
--   Bits                  masks of words by arithmetic
--   Elf                   elf.h: the headers, read from memory
--   Boot                  boot.c, function by function
--   Boot/Sectors, Boot/Segment   the disk's protocol, and what boot_readseg leaves in memory
--   Boot/Image, Boot/Jump the files that it can load, and the jump into the kernel
--   Paging, Paging/*      x86-64.h and kernel.h: constants, PAGEINDEX, PTE_ADDR and the like
--   Vm                    vm.c, function by function
--   Vm/Walk, Vm/Lookup    what the walk computes at any page table
--   Vm/Layout, Vm/Slots   the kernel's page tables: five pages, each with its address
--   Vm/Mapping, Vm/Spaces address spaces as functions, and how a mapping changes them
--   Vm/Isolation, Vm/Frames, Vm/Errors, Vm/Connect, Vm/Init
--                         other page tables, failures, and the kernel's own page table
--   Pages, Pages/*        kernel.c: pageinfo[], alloc_page_process, sys_page_alloc_find_free
--   Process, Process/*    kernel.h, x86-64.h: descriptors; k-hardware.c: process_init
--   Kernel                kernel.c: the globals, schedule, run
--   Kernel/Fork           kernel.c: duplicate_pagetable and the fork system call
--   Kernel/Fork/Copies, Copying, Duplicate, CopyPage, Allocated, Cleared, NewTables
--                         the new page table, and the pages that it takes
--   Kernel/Fork/ForkPage, Rounds, Pages, Loop, FreePages
--                         one page of application memory, and the loop over all of them
--   Kernel/Fork/Whole, Succeeds  the system call as a whole
--   Kernel/Exit, Kernel/Exit/*   kernel.c: the exit system call
--   Kernel/Checks, Kernel/Checks/*   kernel.c: check_virtual_memory and the checks that it calls
--   Kernel/Viewer         kernel.c: memshow_physical, memshow_virtual, memshow_virtual_animate
--   Kernel/Syscalls, Kernel/Syscalls/*       kernel.c: syscall_mapping, syscall_mem_tog
--   Kernel/Exceptions, Kernel/Exceptions/*   kernel.c: exception
--   Kernel/Loader, Kernel/Loader/*           k-loader.c: program_load
--   Kernel/Start          kernel.c: kernel, process_setup; k-hardware.c: hardware_init
--   Print, Print/*        lib.c: printer_vprintf, vsnprintf, console_vprintf, console_clear
--   Hardware/Segments, Hardware/Segments/*   k-hardware.c: segments_init and its gates
--   Hardware/Ports, Hardware/Ports/*         k-hardware.c: interrupt controllers, timer, cursor
--   Hardware/Pci, Hardware/Pci/*             k-hardware.c: pci_find_device, poweroff
--   Hardware/Keyboard, Hardware/Keyboard/*   k-hardware.c: keyboard_readc, check_keyboard
--   Hardware/Log, Hardware/Log/*             k-hardware.c: log_printf, error_printf, panic, fail
--   User, User/*          process.c, process.h: the stubs of the system calls, app_printf, panic
--   Tests, Tests/*        concrete page tables, memories and descriptors
--
-- Bounds. Loops are recursion on the rounds that are left: 4 levels of a walk, the pages of a range,
-- the 512 pages of memory, and 16 descriptors in the scheduler, after which it has seen every
-- descriptor and would see them again. The loops over strings run on fuel, which suffices above the
-- length of the string. Lookups are described below 4 MB, which the two last-level pages of a table
-- cover.
--
-- A number is printed with fuel for 20 digits, enough for 64 bits in base 10 or 16, and a format
-- with fuel for each of its bytes.
--
-- Devices. A call of outb is an entry of a list, in the order of the calls; what a port or the PCI
-- bus yields is a parameter. A trap is the record `Trap`: the saved registers, CR2, and what the
-- keyboard yields. The screen is a function from cells to colours.
--
-- The boot loader's disk is two parameters: what its status port yields at each read, and the bytes
-- that its data port yields after a sequence of port writes. A wait has a bound on its reads, and a
-- segment a bound on its sectors, above the number of sectors in its size.
--
-- Not modelled: assembly, which C does not describe; the application programs, which only
-- exercise the system calls; the tools of the build, which run on the host; and the polls of the
-- keyboard while the scheduler spins. The array index -1 into pageinfo[] reads a cell of its own,
-- since C does not say what is there. The addresses that the linker chooses are parameters
-- (`Symbols`, `Handlers` and the places of the program images).
mod Base
mod Bits
pub mod Memory
pub mod Strings
pub mod Print
pub mod Hardware
pub mod Paging
pub mod Elf
pub mod Boot
pub mod Vm
pub mod Pages
pub mod Process
pub mod Kernel
pub mod User
mod Tests
