-- ===== src/Vmm.antt =====
-- Regions of virtual memory with the memory behind them: `VmmAllocRegionEx`, `VmmFreeRegionEx` and
-- `VmmSolvePageFault` of src/HAL9000/src/vmm.c, on top of the reservations, the paging tables and the
-- physical memory manager, with the functions of src/HAL9000/src/mmu.c that stand between these. The
-- locks of the paging data are held by each function from end to end. `read` stands for `IoReadFile`:
-- for a file, a number of bytes and an offset it gives the status and the number of bytes read.
pub mod Fault
pub mod Buffer
pub mod Metadata
pub mod Regions
use good_osd_project.Prelude.{
  ℕ, zero, suc, ◌+◌, ◌-◌, ◌*◌, ◌/◌, ◌%◌, ◌^◌, Bool, true, false, not, ◌&&◌, ◌||◌, Option, none,
  some, List, [], ◌∷◌, ltb, leb, ◌==◌, if◌then◌else◌,
}
use good_osd_project.CommonLib.{Checks, PageMath, BitmapOps, page_size, max_dword}
use good_osd_project.Kernel.{
  Outcome, done, ◌>>=◌, ◌>>◌, assert, dword, qword, null, Status, success,
  memory_prevents_usermode_access, memory_insufficient_access_rights,
}
use good_osd_project.Mdl.{Mdl, Pair}
use good_osd_project.Paging.Entries.{PteOps}
use good_osd_project.Paging.{
  Tables, MapContext, PatIndices, map_memory_internal, unmap_memory_ex, is_aligned,
}
use good_osd_project.Pmm.{PmmData, reserve_memory_ex}
use good_osd_project.Vm.{Space}
use good_osd_project.Vm.Ops.{AllocType, Request, alloc_region, same_bool}
use good_osd_project.Vm.Access.{
  Access, FreeType, Uninitialized, release, is_release, free_region, can_address_be_accessed,
  return_rights,
}

-- What a region is mapped with: the tables in use, the kernel's own tables where those in use are a
-- process's, the frames, the page faults that the CPU has solved, and the ranges that were zeroed,
-- newest first.
pub record Memory : Type 0 where
  pub tables : Tables
  pub kernel_tables : Tables
  pub physical : PmmData
  pub page_faults : ℕ
  pub cleared : List (ℕ × ℕ)

-- `VMM_ALLOC_TYPE`: the flags for the reservation, and the two others.
pub record RegionType : Type 0 where
  pub states : AllocType
  pub not_lazy : Bool
  pub zeroed_pages : Bool

-- CommonLib's `VA_HIGHEST_VALID_BIT`, the highest bit of an address that selects a page.
pub record AddressBits : Type 0 where
  pub va_highest_valid_bit : ℕ

abbrev pub is_success : Status → Bool
is_success success = true
is_success _ = false

abbrev pub no_mdl : Option Mdl → Bool
no_mdl none = true
no_mdl (some d) = false

module _ ⦃C : Checks⦄ ⦃A : AddressBits⦄ where
  -- `_VmIsKernelAddress` and `_VmIsKernelRange`
  unfoldable pub is_kernel_address : ℕ → Bool
  is_kernel_address a = C.is_flag_on a (2 ^ A.va_highest_valid_bit)

  unfoldable pub is_kernel_range : (address size : ℕ) → Outcome Bool
  is_kernel_range a size = do
    assert (not (size == 0))
    done (is_kernel_address a || is_kernel_address (qword (a + (size - 1))))

module _ ⦃C : Checks⦄ ⦃M : PageMath⦄ ⦃B : BitmapOps⦄ ⦃A : AddressBits⦄ where
  -- `VmmIsBufferValid`
  unfoldable pub is_buffer_valid :
      (buffer size rights : ℕ) → Space → (kernel_access : Bool) → Outcome Status
  is_buffer_valid buffer size rights s kernel_access = do
    assert (not (buffer == null))
    assert (not (size == 0))
    outside ← if kernel_access then done false else is_kernel_range buffer size
    if outside then done memory_prevents_usermode_access else (do
      (st, granted) ← return_rights s buffer size
      done (
          if not (is_success st) then st else elim granted [
            | none ↦ st
            | some r ↦ if C.is_flag_on r rights then success else memory_insufficient_access_rights
          ]))

module _ ⦃C : Checks⦄ ⦃M : PageMath⦄ ⦃B : BitmapOps⦄ ⦃P : PteOps⦄ where
  -- `MmuMapMemoryInternal`
  unfoldable pub map_memory : PatIndices → Tables → (size : ℕ) → MapContext → Outcome Tables
  map_memory pat s size c = do
    assert (not (size == 0))
    assert (is_aligned size)
    assert (not (c.virtual_address_base == null))
    assert (is_aligned c.virtual_address_base)
    map_memory_internal pat s size c

  -- `MmuUnmapMemoryEx`: the size that is rounded to pages is a `DWORD`.
  unfoldable pub unmap_memory : Tables → (va size : ℕ) → (release_frames : Bool) → Outcome Tables
  unmap_memory s va size release_frames = do
    assert (not (va == null))
    assert (not (size == 0))
    let aligned = M.align_lower va
    let aligned_size = dword (M.align_upper (size + dword (va - aligned)))
    unmap_memory_ex s s.base_physical_address aligned aligned_size release_frames

  -- The unmapping in `_VmUninitializeReservation`: the buffer of the commit bitmap leaves the kernel's
  -- tables, which are those in use where `in_kernel` says so.
  unfoldable pub unmap_buffer : (in_kernel : Bool) → Memory → Uninitialized → Outcome Memory
  unmap_buffer true m u = unmap_memory m.tables u.unmapped_buffer u.unmapped_size true >>= λ t.
      done (record m { tables = t })
  unmap_buffer false m u =
      unmap_memory m.kernel_tables u.unmapped_buffer u.unmapped_size true >>= λ t.
      done (record m { kernel_tables = t })

  unfoldable pub unmap_metadata : Memory → Option Uninitialized → Outcome Memory
  unmap_metadata m none = done m
  unmap_metadata m (some u) = unmap_buffer m.tables.kernel_space m u

  -- The loop of `_VmmMapDescribedRegion`, from the address `at` on.
  unfoldable pub map_described_region :
      PatIndices → Tables → (at rights : ℕ) → List Pair → Outcome Tables
  map_described_region pat s at rights [] = done s
  map_described_region pat s at rights (p ∷ ps) =
      let size = M.align_upper (p.number_of_bytes + M.address_offset p.address) in
      let c : MapContext = record {
        physical_address_base = M.align_lower p.address;
        virtual_address_base = at;
        page_rights = rights;
        invalidate = false;
        uncacheable = false;
      } in
      map_memory pat s size c >>= λ s'. map_described_region pat s' (at + size) rights ps

  module _ (read : (file bytes offset : ℕ) → Status × ℕ) where
    -- The part of `VmmAllocRegionEx` that reads the file behind a region: the status, and the memory
    -- with the rest of the region zeroed.
    unfoldable pub read_region : Memory → (va size file : ℕ) → Outcome (Status × Memory)
    read_region m va size file =
        let (st, n) = read file size 0 in
        let rest = qword (size + 2 ^ 64 - n) in
        if file == 0
        then done (success, m)
        else (if not (is_success st) then done (st, m) else (do
          assert (leb rest max_dword)
          done (st, record m { cleared = (va + n, rest) ∷ m.cleared })))

    -- What `VmmSolvePageFault` reads of the file behind a page, and its last part: the page without
    -- the bytes that were read is zeroed, and the fault counted.
    unfoldable pub page_contents : Access → Status × ℕ
    page_contents a =
        if a.backing_file == 0 then (success, 0) else read a.backing_file page_size a.file_offset

    unfoldable pub finish_page :
        Memory → (has_cpu : Bool) → (page : ℕ) → Status × ℕ → Outcome (Bool × Memory)
    finish_page m has_cpu page (st, n) =
        let rest = if n == page_size then m.cleared else (page + n, page_size - n) ∷ m.cleared in
        let faults = if has_cpu then qword (m.page_faults + 1) else m.page_faults in
        if not (is_success st)
        then done (false, m)
        else assert (leb n page_size)
          >> done (true, record m { cleared = rest; page_faults = faults })

  module _ (pat : PatIndices) (read : (file bytes offset : ℕ) → Status × ℕ) where
    -- `_VmmMapDescribedRegion`
    unfoldable pub map_described : Tables → (base rights : ℕ) → Mdl → Outcome Tables
    map_described s base rights d = do
      assert (not (base == null))
      assert (is_aligned base)
      map_described_region pat s base rights d.translations

    abbrev pub region_context : (va pa : ℕ) → Request → MapContext
    region_context va pa q = record {
      physical_address_base = pa;
      virtual_address_base = va;
      page_rights = q.rights;
      invalidate = true;
      uncacheable = q.uncached;
    }

    -- The part of `VmmAllocRegionEx` that takes frames for a region and maps it.
    unfoldable pub fill_region : Memory → (va size : ℕ) → Request → Outcome (Status × Memory)
    fill_region m va size q = do
      assert (leb (size / page_size) max_dword)
      let (pa, physical') = reserve_memory_ex m.physical (size / page_size) 0
      if pa == null then done (success, m) else (do
        tables' ← map_memory pat m.tables size (region_context va pa q)
        read_region read (record m { tables = tables'; physical = physical' }) va size q.file)

    -- Its part for memory that is not lazy.
    unfoldable pub populate_region :
        Memory → (va size : ℕ) → Request → Option Mdl → Outcome (Status × Memory)
    populate_region m va size q mdl = elim mdl [
      | some d ↦ do
        assert (leb d.byte_count size)
        tables' ← map_described m.tables va q.rights d
        done (success, record m { tables = tables' })
      | none ↦ fill_region m va size q
    ]

    -- Its end, where the region is given back if it could not be filled.
    unfoldable pub finish_region : Status × Memory → (va : ℕ) → Space → Outcome (ℕ × Space × Memory)
    finish_region (st, m) va s = if is_success st then done (va, s, m) else (do
      (at, n, gone, s') ← free_region s va 0 release
      m' ← unmap_metadata m gone
      assert (at == va)
      tables' ← unmap_memory m'.tables at (dword n) true
      done (null, s', record m' { tables = tables' }))

    -- `VmmAllocRegionEx`
    unfoldable pub alloc_region_ex :
        Space
        → Memory
        → (base size : ℕ) → RegionType
        → Request
        → Option Mdl
        → Outcome (ℕ × Space × Memory)
    alloc_region_ex s m base size ty q mdl = do
      assert (not (size == 0))
      assert (ty.states.reserve || ty.states.commit)
      assert (no_mdl mdl || ty.not_lazy)
      assert (not ty.zeroed_pages)
      assert (no_mdl mdl || (q.file == 0))
      (st, va, n, s') ← alloc_region s base size ty.states q
      if not (is_success st) then done (null, s', m) else (do
        assert (not (va == null))
        if not ty.not_lazy then done (va, s', m) else (do
          assert ty.states.commit
          r ← populate_region m va n q mdl
          finish_region r va s'))

    -- The part of `VmmSolvePageFault` that fills a page for an access that is allowed.
    unfoldable pub fill_page :
        Memory → (has_cpu : Bool) → (page : ℕ) → Access → Outcome (Bool × Memory)
    fill_page m has_cpu page a = do
      let (pa, physical') = reserve_memory_ex m.physical 1 0
      assert (not (pa == null))
      let c : MapContext = record {
        physical_address_base = pa;
        virtual_address_base = page;
        page_rights = a.memory_rights;
        invalidate = true;
        uncacheable = a.uncacheable;
      }
      tables' ← map_memory pat m.tables page_size c
      finish_page read (record m { tables = tables'; physical = physical' }) has_cpu page
          (page_contents read a)

    -- `VmmSolvePageFault`: `system` and `process` are the reservation spaces of the kernel and of the
    -- current thread's process, and `known` is as in `VmReservationCanAddressBeAccessed`.
    unfoldable pub solve_page_fault :
        ⦃A : AddressBits⦄
        → (system process : Space) → Memory
        → (has_cpu known : Bool) → (address rights : ℕ) → Outcome (Bool × Memory)
    solve_page_fault system process m has_cpu known address rights =
        let page = M.align_lower address in
        let kernel = is_kernel_address address in
        if page == null
        then done (false, m)
        else (if kernel && not m.tables.kernel_space
            then done (false, m)
            else (if not kernel && m.tables.kernel_space then done (false, m) else (do
              found ←
                  can_address_be_accessed (if kernel then system else process) known address rights
              elim found [ none ↦ done (false, m) | some a ↦ fill_page m has_cpu page a ])))

  -- `VmmFreeRegionEx`
  unfoldable pub free_region_ex :
      Space
      → Memory
      → (address size : ℕ) → FreeType
      → (release_frames : Bool) → Outcome (Space × Memory)
  free_region_ex s m address size ty release_frames = do
    assert (not (address == null))
    assert (same_bool (is_release ty) (size == 0))
    (at, n, gone, s') ← free_region s address size ty
    m' ← unmap_metadata m gone
    assert (not (at == null))
    assert (not (n == 0))
    tables' ← unmap_memory m'.tables at n release_frames
    done (s', record m' { tables = tables' })
