-- ===== src/Tests.antt =====
-- The theorems at concrete inputs, and runs of the model.
mod Machines
mod MemoryTests
mod VmTests
mod PagesTests
mod PrintTests
mod HardwareTests
mod TrapTests
mod YieldTests
mod CheckTests
mod BootTests
mod ExitTests
mod ForkTests
mod ForkingTests
mod KernelTests
mod UserTests
