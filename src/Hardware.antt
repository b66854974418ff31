-- ===== src/Hardware.antt =====
-- k-hardware.c: segments and interrupts, ports, the PCI bus and the keyboard. A write to an I/O
-- port is the pair of the port and the value; what a port yields is a parameter.
pub mod Ports
pub mod Pci
pub mod Log
pub mod Segments
pub mod Keyboard
