-- ===== src/Tests/Memory.antt =====
-- Runs of the descriptor lists and of the reservations.
use good_osd_project.Prelude.{
  ℕ, ◌+◌, ◌*◌, ◌/◌, ◌≡◌, true, false, some, none, [], ◌∷◌, refl, arith, ltb, if◌then◌else◌,
}
use good_osd_project.Kernel.{Returns, done, success}
use good_osd_project.Mdl.{allocate}
use good_osd_project.Mdl.Allocate.{IsPaged, Describes, allocate-Describes}
use good_osd_project.Vm.{Space, Reservation, used, last, zeroed, find, claim}
use good_osd_project.Vm.Access.{free_region, decommit, can_address_be_accessed, return_rights}
use good_osd_project.Vm.Alloc.{HasRoom}
use good_osd_project.Vm.Release.{decommit-access}
use good_osd_project.Vm.Init.{init, finish_init, init-alloc_region}
use good_osd_project.Vm.Ops.{Request, alloc_region}
use good_osd_project.Vm.Usable.{alloc_region-access, reserve_and_commit, drawn}
use good_osd_project.Tests.Instances.{page_math, bitmap_ops, checks}

-- Two pages that lie together, and pages elsewhere from the third on.
abbrev translate : ℕ → ℕ
translate a = if ltb a 20480 then a + 65536 else a + 131072

translate-IsPaged : IsPaged translate
translate-IsPaged a d h r = ground arith

allocate-Describes_example :
    Returns
      (Describes translate translate-IsPaged 12388 10000)
      (allocate translate true true 12388 10000)
allocate-Describes_example =
    allocate-Describes translate translate-IsPaged 12388 10000 true (omega arith) (omega arith)
      (omega arith) (omega arith, (omega arith, tt))

abbrev pub slot : Reservation
slot = record zeroed { start_va = 4194304; size = 8192; state = used; page_rights = 1 }

-- One reservation, a free slot, and the last one.
abbrev pub space : Space
space = record {
  free_virtual_address_pointer = 8388608;
  start_of_virtual_address_space = 1048576;
  reservation_list_address = 65536;
  bitmap_address_start = 69632;
  reserved_area_size = 65536;
  free_bitmap_address = 73728;
  reservations = slot ∷ zeroed ∷ record zeroed { state = last } ∷ [];
  overrun = false;
}

abbrev request : Request
request = record { rights = 3; uncached = false; file = 0 }

space-HasRoom : HasRoom (drawn space 12288) 8388608 12288 1
space-HasRoom = record {
  real = omega arith;
  pos = omega arith;
  address_aligned = refl;
  size_aligned = refl;
  unheld = (refl, tt);
  slot_free = unfold claim in refl;
  pages_in = omega arith;
  some_bytes = omega arith;
  buffer_aligned = refl;
  buffer_in = refl;
}

alloc_region-access_example :
    Returns
      (λ r.
        can_address_be_accessed r.3 true 8400000 3
        ≡ done (
            some (record {
              memory_rights = 3;
              uncacheable = false;
              backing_file = 0;
              file_offset = 0;
            })))
      (alloc_region space 0 10000 reserve_and_commit request)
alloc_region-access_example =
    alloc_region-access space 10000 1 request space-HasRoom 8400000 (omega arith) (omega arith)
      (refl, tt) true (omega arith) refl

-- A reservation of two committed pages.
abbrev pub two_pages : Space
two_pages = record space {
  reservations = record slot { commit_bitmap = λ i. true } ∷ record zeroed { state = last } ∷ [];
}

pub find_two_pages : find two_pages.reservations 4194404 1 ≡ some 0
unfolding find
find_two_pages = refl

find_denied : find two_pages.reservations 4198300 1 ≡ some 0
unfolding find
find_denied = refl

decommit-access_example :
    Returns
      (λ r. can_address_be_accessed r.3 true 4198300 1 ≡ done none)
      (free_region two_pages 4194404 50 decommit)
decommit-access_example =
    decommit-access two_pages 4194404 50 0 (record slot { commit_bitmap = λ i. true })
      find_two_pages refl 4198300 find_denied refl (omega arith) (omega arith) true 1 (omega arith)
      (omega arith) (omega arith) (omega arith) (omega arith) (omega arith) refl

abbrev percentage : ℕ → ℕ → ℕ
percentage n hundredths = n * hundredths / 10000

init-alloc_region_example :
    Returns
      (λ s.
        Returns
          (λ a.
            (a.0 ≡ success)
            × (a.1 ≡ 0x15000)
            × (a.2 ≡ 12288)
            × (return_rights a.3 a.1 a.2 ≡ done (success, some 3)))
          (alloc_region (finish_init s) 0 10000 reserve_and_commit request))
      (init percentage (zeroed ∷ []) 0x10000 0 20480)
init-alloc_region_example =
    init-alloc_region percentage [] zeroed 0x10000 0 20480 10000 request (omega arith) refl refl
      refl (omega arith) (omega arith) (omega arith) (omega arith)
