-- ===== src/Pmm.antt =====
-- The physical memory manager, src/HAL9000/src/pmm.c. Its lock is held by each operation from end to
-- end; a physical address is a number, and 0 is `NULL`.
pub mod Frames
pub mod Regions
use good_osd_project.Prelude.{
  ℕ, ◌+◌, ◌*◌, ◌/◌, ◌%◌, ◌^◌, Bool, true, false, not, List, [], ◌∷◌, length, ltb, leb, ◌==◌, ◌&&◌,
  if◌then◌else◌, update,
}
use good_osd_project.CommonLib.{BitmapOps, Checks, MemoryMap, PageMath, page_size, max_dword}
use good_osd_project.Kernel.{
  Outcome, done, ◌>>=◌, ◌>>◌, assert, dword, qword, null, Status, success, invalid_parameter1,
  invalid_parameter2, invalid_parameter3, invalid_parameter4,
}

-- `INT15_MEMORY_MAP_ENTRY`, as the fields that the manager reads show it
pub record MemoryEntry : Type 0 where
  pub base_address : ℕ
  pub size : ℕ
  pub memory_type : ℕ
  pub extended_attributes : ℕ

-- What `_PmmDetermineMemoryLimits` stores, and its counts of the entries of each type. The array
-- `MemoryRegionList` is a function here, so a type beyond `MemoryMapTypeMax` has a count as well.
pub record Limits : Type 0 where
  pub physical_memory_size : ℕ
  pub highest_present : ℕ
  pub highest_available : ℕ
  pub number_of_entries : ℕ → ℕ

-- `PMM_DATA`. The bitmap has `bit_count` elements, and a bit that is set is a frame that is taken.
pub record PmmData : Type 0 where
  pub limits : Limits
  pub bit_count : ℕ
  pub allocation_bitmap : ℕ → Bool

-- `1 * MB_SIZE`
abbrev pub mb_size : ℕ
mb_size = 2 ^ 20

-- `PmmPreinitSystem`
unfoldable pub preinit_system : PmmData
preinit_system = record {
  limits = record {
    physical_memory_size = 0;
    highest_present = 0;
    highest_available = 0;
    number_of_entries = λ ty. 0;
  };
  bit_count = 0;
  allocation_bitmap = λ i. false;
}

abbrev pub end_of : MemoryEntry → ℕ
end_of e = qword (e.base_address + e.size)

abbrev pub higher : ℕ → ℕ → ℕ
higher a b = if ltb b a then a else b

module _ ⦃C : Checks⦄ ⦃I : MemoryMap⦄ where
  abbrev pub is_valid : MemoryEntry → Bool
  is_valid e = C.is_flag_on e.extended_attributes I.memory_map_entry_ea_valid_entry

  abbrev pub is_usable : MemoryEntry → Bool
  is_usable e = e.memory_type == I.memory_map_type_usable_ram

  -- A round of the loop of `_PmmDetermineMemoryLimits`.
  unfoldable pub note_entry : Limits → MemoryEntry → Limits
  note_entry l e =
      let present = record l { highest_present = higher (end_of e) l.highest_present } in
      let n = dword (l.number_of_entries e.memory_type + 1) in
      let counted = record present {
        number_of_entries = update l.number_of_entries e.memory_type n;
      } in
      let available = record counted {
        highest_available = higher (end_of e) l.highest_available;
        physical_memory_size = qword (l.physical_memory_size + e.size);
      } in
      if not (is_valid e) then present else (if is_usable e then available else counted)

  unfoldable pub note_entries : Limits → List MemoryEntry → Limits
  unfolding note_entry
  note_entries l [] = l
  note_entries l (e ∷ es) = note_entries (note_entry l e) es

  -- `_PmmDetermineMemoryLimits`
  unfoldable pub determine_memory_limits : (ℕ → ℕ) → List MemoryEntry → Outcome Limits
  unfolding note_entries
  determine_memory_limits regions entries = do
    assert (not (length entries == 0))
    let start : Limits = record {
      physical_memory_size = 0;
      highest_present = 0;
      highest_available = 0;
      number_of_entries = regions;
    }
    done (note_entries start entries)

module _ ⦃B : BitmapOps⦄ where
  -- `PmmReserveMemoryEx`
  unfoldable pub reserve_memory_ex : PmmData → (no_of_frames min_phys_addr : ℕ) → ℕ × PmmData
  reserve_memory_ex d n min =
      let start = min / page_size in
      let idx = B.scan_from d.allocation_bitmap d.bit_count start n in
      let taken = record d { allocation_bitmap = B.set_bits d.allocation_bitmap idx n } in
      if n == 0
      then (null, d)
      else (if not (min % page_size == 0)
          then (null, d)
          else (if ltb max_dword start
              then (null, d)
              else (if idx == max_dword then (null, d) else (idx * page_size, taken))))

  -- `PmmReleaseMemory`
  unfoldable pub release_memory : PmmData → (physical_addr no_of_frames : ℕ) → Outcome PmmData
  release_memory d addr n = do
    assert (addr % page_size == 0)
    let index = addr / page_size
    assert (leb index max_dword)
    done (record d { allocation_bitmap = B.clear_bits d.allocation_bitmap index n })

  module _ ⦃C : Checks⦄ ⦃I : MemoryMap⦄ ⦃M : PageMath⦄ where
    -- Whether the loop of `_PmmInitializeAllocationBitmap` releases an entry's memory.
    abbrev pub is_released : MemoryEntry → Bool
    is_released e = is_valid e && is_usable e && not (ltb e.base_address mb_size)

    -- A round of that loop.
    unfoldable pub release_entry : PmmData → MemoryEntry → Outcome PmmData
    release_entry d e =
        if is_released e
        then (do
          let frames = e.size / page_size
          assert (leb frames max_dword)
          release_memory d (M.align_upper e.base_address) frames)
        else done d

    unfoldable pub release_entries : PmmData → List MemoryEntry → Outcome PmmData
    release_entries d [] = done d
    release_entries d (e ∷ es) = release_entry d e >>= λ d'. release_entries d' es

    -- `_PmmInitializeAllocationBitmap`: the size of the bitmap, in bytes, and the state.
    unfoldable pub initialize_allocation_bitmap :
        PmmData → (highest_memory_address : ℕ) → List MemoryEntry → Outcome (ℕ × PmmData)
    initialize_allocation_bitmap d highest entries = do
      assert (not (highest == 0))
      let frames = highest / page_size
      assert (leb frames max_dword)
      let initialized = record d { bit_count = frames; allocation_bitmap = B.clear }
      let (address, reserved) = reserve_memory_ex initialized frames 0
      d' ← release_entries reserved entries
      done (B.buffer_size frames, d')

    -- `PmmInitSystem`. `entries` is the array behind `memory_entries`; the size is stored where the
    -- status is `success`.
    unfoldable pub init_system :
        PmmData
        → (base_address memory_entries : ℕ) → List MemoryEntry
        → (no_size : Bool) → Outcome (Status × ℕ × PmmData)
    init_system d base memory_entries entries no_size =
        if base == null
        then done (invalid_parameter1, 0, d)
        else (if memory_entries == null
            then done (invalid_parameter2, 0, d)
            else (if length entries == 0
                then done (invalid_parameter3, 0, d)
                else (if no_size then done (invalid_parameter4, 0, d) else (do
                  limits ← determine_memory_limits d.limits.number_of_entries entries
                  (size, d') ←
                      initialize_allocation_bitmap (record d { limits = limits })
                        limits.highest_present entries
                  done (success, M.align_upper (dword size), d')))))
