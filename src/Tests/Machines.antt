-- ===== src/Tests/Machines.antt =====
-- Concrete page tables and memories for the tests.
use virtual_memory.Base.{refl, arith}
use virtual_memory.Memory.{Memory, load64, store64}
use virtual_memory.Memory.Words.{IsBytes}
use virtual_memory.Vm.{Tables, Symbols, connect, link}
use virtual_memory.Vm.Layout.{AreTables, Connected}
use virtual_memory.Vm.Connect.{connect-IsBytes}
use virtual_memory.Vm.Isolation.{Separate}
use virtual_memory.Vm.Init.{AreSymbols}

abbrev pub zeros : Memory
zeros a = 0

pub zeros-IsBytes : IsBytes zeros
zeros-IsBytes a = omega arith

-- Two page tables on pages 1 to 10.
abbrev pub t1 : Tables
t1 = record { l1 = 0x1000; l2 = 0x2000; l3 = 0x3000; l4_1 = 0x4000; l4_2 = 0x5000 }

abbrev pub t2 : Tables
t2 = record { l1 = 0x6000; l2 = 0x7000; l3 = 0x8000; l4_1 = 0x9000; l4_2 = 0xA000 }

unfoldable pub two_tables : Memory
two_tables = connect (connect zeros t1) t2

pub t1-AreTables : AreTables t1
t1-AreTables = omega arith

pub t2-AreTables : AreTables t2
t2-AreTables = omega arith

pub t1-t2-Separate : Separate t1 t2
t1-t2-Separate = omega arith

pub t1-Connected : Connected two_tables t1
unfolding two_tables connect link load64 store64
t1-Connected = record { to_l2 = refl; to_l3 = refl; to_l4_1 = refl; to_l4_2 = refl }

pub t2-Connected : Connected two_tables t2
unfolding two_tables connect link load64 store64
t2-Connected = record { to_l2 = refl; to_l3 = refl; to_l4_1 = refl; to_l4_2 = refl }

pub two_tables-IsBytes : IsBytes two_tables
unfolding two_tables
two_tables-IsBytes =
    connect-IsBytes t2 t2-AreTables (connect zeros t1)
      (connect-IsBytes t1 t1-AreTables zeros zeros-IsBytes)

-- The addresses that the repository's own build gives (obj/kernel.sym).
abbrev pub symbols : Symbols
symbols = record {
  kernel_pagetables = 0x52000;
  default_int_handler = 0x4009c;
  virtual_memory_map_code = 0x42e14;
  start_data = 0x45000;
  end = 0x57008;
}

pub symbols-AreSymbols : AreSymbols symbols
symbols-AreSymbols = omega arith
