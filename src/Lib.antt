-- ===== src/Lib.antt =====
-- The LSD kernel, a RISC-V kernel for user tasks: models of its parts and theorems about them. Paths
-- are from the repository's root.
--
-- Parts.
-- - Memory/Pmm: the list of free frames, LSD/src/memory/pmm.rs. The list lives in the frames that it
--   hands out, so a state is the `FreeList` and the entries that can be read in memory; a pointer is
--   its address, 0 is null. `push`, `pull`, `claim`, `claim_continuous` and `claim_aligned` keep the
--   names of the methods. Pmm/Refine has calls in a row, in memory and on a plain list of frames.
-- - Memory/Heap: the allocator of the kernel's heap, LSD/src/memory/linked_list.rs. Its free regions
--   are a list of addresses and sizes; `alloc` and `dealloc` take a layout as the standard library
--   describes it.
-- - Memory/Dma: regions of frames that devices share, LSD/src/memory/dma.rs, over Memory/Pmm. The
--   bytes of memory follow the entries of the free list that a claim of frames changes.
-- - Memory/Paging: the levels and sizes of pages of LSD/src/memory/vmm.rs, and the addresses of
--   LSD/src/memory/mod.rs without their bit fields.
-- - Memory/Fields: what the kernel uses of the bitfield crate, as a record of operations and of what
--   that crate documents of them; the definitions below take it as an instance argument.
-- - Memory/Tables: page tables, LSD/src/memory/vmm.rs: `map`, `unmap` and `virt_to_phys` over the free
--   list of Memory/Pmm and a function from the addresses of tables to their 512 entries. A frame is
--   read as an entry of the free list until it is claimed and as a table once it is one. What holds
--   of all tables is said by a level for each address, 0 where there is no table, and by the slot
--   that leads to it.
-- - Memory/Vmm: `Vmm` of LSD/src/memory/vmm.rs, which takes addresses from an arena of the vmem crate,
--   a parameter, and maps them to frames by Memory/Tables and Memory/Pmm.
-- - Drivers/Virtio/Splitqueue: the queues shared with a virtio device,
--   LSD/src/drivers/virtio/splitqueue/mod.rs; the device's memory is an argument.
-- - Drivers/Virtio/Header: the registers of a virtio device, LSD/src/drivers/virtio/mod.rs. A device
--   is a state with a function that reads a field and one that writes a word of it; what a virtio
--   device makes of a write, and which writes a driver may make when, is in Header/Protocol.
-- - Drivers/Virtio/Input, Drivers/Virtio/Entropy: the drivers of input devices and of sources of
--   random numbers, LSD/src/drivers/virtio/input and entropy. They put their queues in frames of
--   Memory/Pmm by Memory/Dma and tell the device where these are.
-- - Drivers/Virtio/Devices, Traps/Plic: the loop of LSD/src/drivers/virtio/mod.rs over the devices that
--   were found, and the table of handlers of LSD/src/traps/plic.rs in which it puts its own.
-- - Drivers/Rtc: the registers and the calendar of the clock, LSD/src/drivers/goldfish_rtc/mod.rs.
-- - Traps/Frame, Traps/Cause: the trap frame and the causes of LSD/src/traps/mod.rs.
-- - Traps/Shim: the assembly of the trap entry and exit in LSD/src/traps/mod.rs, and of
--   `TaskData::load` in LSD/src/traps/task.rs, as lists of instructions with an interpreter.
-- - Traps/Task: user tasks and their queue, LSD/src/traps/task.rs. A trap enters at the shim, which
--   builds the frame that the handler switches by `advance_task`.
-- - Traps/Input: how a task waits for a character and is woken, LSD/src/uart.rs and the call of
--   LSD/src/arch/riscv/syscalls.rs that waits.
-- - Traps/Calls: the system calls of LSD/src/arch/riscv/syscalls.rs and `trap_handler` of
--   LSD/src/traps/mod.rs. A trap enters at the shim; `trap_handler` gives it to a system call, which
--   works on the tasks of Traps/Task and the tables of Memory/Tables.
-- - Drivers/Pci/Slot: the configuration space of a PCI device, LSD/src/drivers/pci/slot.rs.
-- - Drivers/Pci/Host: where functions lie in the space of the host, LSD/src/drivers/pci/mod.rs.
-- - Timing: units, instants and timeouts, LSD/src/timing.rs.
-- - Userspace: how a user program is loaded, LSD/src/userspace.rs, over the tables, the frames and
--   the bytes of memory; the elf and vmem crates are parameters.
-- - Smp: how the other cores are started, `smp_init` and `core_main` of LSD/src/main.rs. The cores run
--   at the same time, so a run is a sequence of moves of the loop and of the cores.
-- - Features: the extensions of the processor, `CpuData` of LSD/src/lib.rs, from the string of the
--   device tree.
-- - Cells: the cell that is set once of LSD/src/lib.rs.
-- - Prelude: names of the library, lists and words over native numbers, and results of code that may
--   panic, fault at an address that is not mapped, or go on for ever.
--
-- Conventions. The kernel is built for release on a 64-bit target, so `+`, `-` and `*` wrap. The
-- statics of the source are arguments and results. Locks are not modelled, but for the write lock
-- of the task queue in the call to end a program, a parameter that is told whether a guard is
-- alive. A bounded `for` counts its rounds down; the `loop` of `advance` takes fuel, and as many
-- rounds as there are tasks are enough when one is ready; `drain` takes fuel, and one round more
-- than there are elements is enough; `map`, `unmap` and `virt_to_phys` take fuel, and one round
-- more than there are levels to go down is enough; the copy of tables takes the depth to which they
-- are nested.
--
-- Not modelled: the scan of the PCI buses and the NVMe driver, which is not finished in the source, the
-- start of the kernel but for its other cores, the boot code, control registers, volatile cells, the
-- user programs, the build tool, and what other crates do.
pub mod Prelude
pub mod Cells
pub mod Drivers
pub mod Features
pub mod Memory
pub mod Smp
pub mod Timing
pub mod Traps
pub mod Userspace
