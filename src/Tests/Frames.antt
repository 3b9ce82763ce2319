-- ===== src/Tests/Frames.antt =====
-- Runs of the physical memory manager.
use good_osd_project.Prelude.{
  ℕ, ◌+◌, ◌*◌, ◌^◌, ◌≡◌, ◌≤◌, ◌⊎◌, true, List, [], ◌∷◌, refl, arith, ◌==◌, if◌then◌else◌, false,
}
use good_osd_project.CommonLib.{page_size, in_range}
use good_osd_project.Kernel.{Returns, done}
use good_osd_project.Pmm.{
  PmmData, MemoryEntry, preinit_system, reserve_memory_ex, release_memory,
  initialize_allocation_bitmap, release_entries, release_entry,
}
use good_osd_project.Pmm.Frames.{reserve-release, reserve_apart}
use good_osd_project.Pmm.Regions.{
  Initialized, initialize_allocation_bitmap-usable, initialize-reserve, in_usable,
}
use good_osd_project.Tests.Instances.{page_math, bitmap_ops, checks, memory_map}

-- Eight frames at 1 MB, and a reserved frame behind them.
abbrev entries : List MemoryEntry
entries =
    record { base_address = 2 ^ 20; size = 32768; memory_type = 1; extended_attributes = 1 }
    ∷ record {
      base_address = 2 ^ 20 + 32768;
      size = 4096;
      memory_type = 2;
      extended_attributes = 1;
    }
    ∷ []

abbrev eight_frames : PmmData
eight_frames = record {
  limits = record {
    physical_memory_size = 32768;
    highest_present = 32768;
    highest_available = 32768;
    number_of_entries = λ ty. 0;
  };
  bit_count = 8;
  allocation_bitmap = λ i. i == 1;
}

reserve_two : (reserve_memory_ex eight_frames 3 4096).0 ≡ 8192
unfolding reserve_memory_ex
reserve_two = refl

reserve-release_example :
    let r = reserve_memory_ex eight_frames 3 4096 in
    Returns (λ d'. (i : ℕ) → d'.allocation_bitmap i ≡ (i == 1)) (release_memory r.1 r.0 3)
reserve-release_example =
    reserve-release eight_frames 3 4096 (omega arith) (omega (arith, reserve_two))

reserve_then : (reserve_memory_ex (reserve_memory_ex eight_frames 3 4096).1 2 4096).0 ≡ 20480
unfolding reserve_memory_ex
reserve_then = refl

reserve_apart_example :
    let r = reserve_memory_ex eight_frames 3 4096 in
    let r' = reserve_memory_ex r.1 2 4096 in
    (r.0 + 3 * page_size ≤ r'.0) ⊎ (r'.0 + 2 * page_size ≤ r.0)
reserve_apart_example =
    reserve_apart eight_frames 3 4096 2 4096 (omega arith) (omega arith)
      (omega (arith, reserve_two)) (omega (arith, reserve_then))

initialize_allocation_bitmap-usable_example :
    Returns
      (Initialized 1085440 entries)
      (initialize_allocation_bitmap preinit_system 1085440 entries)
initialize_allocation_bitmap-usable_example =
    initialize_allocation_bitmap-usable preinit_system 1085440 entries (omega arith) (omega arith)
      (λ _. (omega arith, omega arith), ((λ _. (omega arith, omega arith)), tt))

-- What these entries leave: frames 256 to 263 are free.
abbrev set_up : PmmData
set_up = record eight_frames {
  bit_count = 265;
  allocation_bitmap =
      λ i. if in_range 256 8 i then false else (if in_range 0 265 i then true else false);
}

set_up-eq : initialize_allocation_bitmap eight_frames 1085440 entries ≡ done (34, set_up)
unfolding initialize_allocation_bitmap reserve_memory_ex release_entries release_entry
    release_memory
set_up-eq = refl

reserve_first : (reserve_memory_ex set_up 2 0).0 ≡ 1048576
unfolding reserve_memory_ex
reserve_first = refl

initialize-reserve_example : in_usable entries 257 ≡ true
initialize-reserve_example =
    initialize-reserve eight_frames 1085440 entries 34 set_up (omega arith) (omega arith)
      (λ _. (omega arith, omega arith), ((λ _. (omega arith, omega arith)), tt)) set_up-eq 2 0 257
      (omega (arith, reserve_first)) (rw reserve_first refl)

abbrev odd_entry : MemoryEntry
odd_entry = record {
  base_address = 2 ^ 20 + 100;
  size = 8192;
  memory_type = 1;
  extended_attributes = 1;
}
