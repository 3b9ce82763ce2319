-- ===== src/Tests/Regions.antt =====
-- Runs of the page faults, the regions and the buffers.
use good_osd_project.Prelude.{ℕ, ◌≡◌, ◌≢◌, true, false, some, [], ◌∷◌, refl, arith, ltb, ◌==◌, ◌≤◌}
use good_osd_project.Kernel.{Returns, done, success, invalid_parameter1, Status}
use good_osd_project.Pmm.{PmmData, reserve_memory_ex}
use good_osd_project.Vm.{Space, Reservation, last, zeroed, find}
use good_osd_project.Vm.Access.{
  Access, Uninitialized, all_committed, return_rights, can_address_be_accessed,
}
use good_osd_project.Vm.Ops.{is_committed}
use good_osd_project.Vmm.{
  Memory, is_kernel_range, is_kernel_address, page_contents, solve_page_fault, is_buffer_valid,
}
use good_osd_project.Vmm.Fault.{Solved, Leaked, solve_page_fault-Solved, solve_page_fault-Leaked}
use good_osd_project.Vmm.Buffer.{is_buffer_valid-access}
use good_osd_project.Tests.Instances.{page_math, bitmap_ops, checks, address_bits}
use good_osd_project.Tests.Tables.{pte_ops, tables_of, tables_of-Tree, indices}
use good_osd_project.Tests.Memory.{slot, space, two_pages}

-- Three of 64 frames are taken.
abbrev frames : PmmData
frames = record {
  limits = record {
    physical_memory_size = 0x40000;
    highest_present = 0x40000;
    highest_available = 0x40000;
    number_of_entries = λ i. 0;
  };
  bit_count = 64;
  allocation_bitmap = λ i. ltb i 3;
}

abbrev user_memory : Memory
user_memory = record {
  tables = tables_of false;
  kernel_tables = tables_of true;
  physical = frames;
  page_faults = 0;
  cleared = [];
}

abbrev short_file : (file bytes offset : ℕ) → Status × ℕ
short_file file bytes offset = (success, 100)

abbrev no_file : (file bytes offset : ℕ) → Status × ℕ
no_file file bytes offset = (invalid_parameter1, 0)

-- Two committed pages with a file behind them.
abbrev file_slot : Reservation
file_slot = record slot { commit_bitmap = λ i. true; backing_file = 7 }

abbrev file_space : Space
file_space = record two_pages { reservations = file_slot ∷ record zeroed { state = last } ∷ [] }

abbrev grant : Access
grant = record { memory_rights = 1; uncacheable = false; backing_file = 7; file_offset = 0 }

grant_lem : can_address_be_accessed file_space true 4194404 1 ≡ done (some grant)
unfolding can_address_be_accessed find is_committed
grant_lem = refl

user_side : is_kernel_address 4194404 ≡ false
unfolding is_kernel_address
user_side = refl

has_frame : (reserve_memory_ex frames 1 0).0 ≢ 0
unfolding reserve_memory_ex
has_frame = omega arith

solve_page_fault-Solved_example :
    Returns
      (Solved short_file user_memory 4194304 grant true)
      (solve_page_fault indices short_file space file_space user_memory true true 4194404 1)
solve_page_fault-Solved_example =
    let readable : ((page_contents short_file grant).0 ≡ success)
        × ((page_contents short_file grant).1 ≤ 4096) =
      unfold page_contents in (refl, omega arith) in
    solve_page_fault-Solved indices short_file space file_space user_memory true 4194404 1
      (tables_of-Tree false) grant (omega arith) user_side (rw user_side grant_lem) has_frame
      (omega arith) (omega arith) true readable

solve_page_fault-Leaked_example :
    Returns
      (Leaked user_memory 4194304)
      (solve_page_fault indices no_file space file_space user_memory true true 4194404 1)
solve_page_fault-Leaked_example =
    solve_page_fault-Leaked indices no_file space file_space user_memory true 4194404 1
      (tables_of-Tree false) grant (omega arith) user_side (rw user_side grant_lem) has_frame
      (omega arith) (omega arith) true (unfold page_contents in refl)

-- Two pages, with the bitmap in the kernel's half of the address space.
abbrev released_slot : Reservation
released_slot = record slot { bitmap_buffer = 0xffff800000100000; bitmap_size = 1 }

abbrev released_space : Space
released_space = record two_pages {
  reservations = released_slot ∷ record zeroed { state = last } ∷ [];
}

abbrev emptied : Space
emptied = record two_pages { reservations = zeroed ∷ record zeroed { state = last } ∷ [] }

abbrev bitmap : Uninitialized
bitmap = record { unmapped_buffer = 0xffff800000100000; unmapped_size = 1; closed_file = 0 }

valid_lem : is_buffer_valid 4194304 5000 1 file_space false ≡ done success
unfolding is_buffer_valid is_kernel_range is_kernel_address return_rights all_committed find
valid_lem = refl

find_buffer : find file_space.reservations 4194304 5000 ≡ some 0
unfolding find
find_buffer = refl

find_byte : find file_space.reservations 4199000 1 ≡ some 0
unfolding find
find_byte = refl

is_buffer_valid-access_example :
    (granted : Access) × (can_address_be_accessed file_space true 4199000 1 ≡ done (some granted))
is_buffer_valid-access_example =
    is_buffer_valid-access file_space 4194304 5000 1 false 0 file_slot find_buffer refl refl true
      refl valid_lem 4199000 (omega arith) (omega arith) (omega arith) find_byte refl

-- The first of two pages is committed.
abbrev half_slot : Reservation
half_slot = record slot { commit_bitmap = λ i. i == 0 }

abbrev half_space : Space
half_space = record two_pages { reservations = half_slot ∷ record zeroed { state = last } ∷ [] }

find_half : find half_space.reservations 4198304 200 ≡ some 0
unfolding find
find_half = refl

find_last : find half_space.reservations 4198503 1 ≡ some 0
unfolding find
find_last = refl
