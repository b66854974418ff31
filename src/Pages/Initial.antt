-- ===== src/Pages/Initial.antt =====
-- What `pageinfo_init` leaves in the array.
use virtual_memory.Base.{ℕ, ◌*◌, ◌==◌, if◌then◌else◌}
use virtual_memory.Vm.{Symbols}
use virtual_memory.Pages.{PageInfo, po_free, initial_owner}

-- The entry of a page that `pageinfo_init` has seen.
abbrev pub initial_info : Symbols → ℕ → PageInfo
initial_info s pn =
    let owner = initial_owner s (pn * 4096) in
    record { owner = owner; refcount = if owner == po_free then 0 else 1 }
