-- ===== src/Paging.antt =====
-- The paging tables, src/HAL9000/src/vmm.c: the walk over the four levels and its three callbacks.
-- Physical memory is the entries of each table, by the table's physical address and the index, as
-- `PA2VA` reaches them; the caches of translations are left out.
pub mod Entries
pub mod Tree
pub mod Edit
pub mod Grow
pub mod Map
pub mod Unmap
pub mod Retrieve
pub mod Pages
pub mod Range
pub mod Clear
pub mod Translate
pub mod RoundTrip
use good_osd_project.Prelude.{
  ℕ, zero, suc, ◌+◌, ◌-◌, ◌*◌, ◌/◌, ◌%◌, Bool, true, false, not, ◌&&◌, ◌||◌, List, [], ◌∷◌, ltb,
  ◌==◌, if◌then◌else◌, update,
}
use good_osd_project.CommonLib.{Checks, page_size}
use good_osd_project.Paging.Entries.{PteOps, PteMapFlags}
use good_osd_project.Kernel.{Outcome, done, ◌>>=◌, ◌>>◌, assert, dword, null}

-- `PAGING_DATA`, as its uses show it, with the memory behind it. `released` holds the frames that
-- were given to `MmuReleaseMemory`, newest first.
pub record Tables : Type 0 where
  pub base_physical_address : ℕ
  pub current_index : ℕ
  pub number_of_frames : ℕ
  pub kernel_space : Bool
  pub entries : ℕ → ℕ → ℕ
  pub released : List ℕ

-- `VMM_MAP_UNMAP_PAGE_WALK_CONTEXT`, without the paging data
pub record MapContext : Type 0 where
  pub physical_address_base : ℕ
  pub virtual_address_base : ℕ
  pub page_rights : ℕ
  pub invalidate : Bool
  pub uncacheable : Bool

-- The indices that `VMM_DATA` keeps for the two cachings.
pub record PatIndices : Type 0 where
  pub write_back_index : ℕ
  pub uncacheable_index : ℕ

-- What `_VmRetrievePhyAccess` stores in its context.
pub record Found : Type 0 where
  pub physical_address : ℕ
  pub accessed : Bool
  pub dirty : Bool

abbrev pub paging_tables_last_level : ℕ
paging_tables_last_level = 4

-- A write to the entry `i` of the table at `t`.
abbrev pub write_entry : (ℕ → ℕ → ℕ) → (t i e : ℕ) → ℕ → ℕ → ℕ
write_entry f t i e = update f t (update (f t) i e)

module _ ⦃P : PteOps⦄ where
  -- `_VmRetrieveNextPhysicalAddressForPagingStructure` and `_VmSetupPagingStructure`
  abbrev pub next_frame : Tables → ℕ
  next_frame s = s.base_physical_address + dword (s.current_index * page_size)

  abbrev pub structure_flags : Bool → PteMapFlags
  structure_flags kernel = record {
    writable = true;
    executable = true;
    paging_structure = true;
    user_access = not kernel;
    global_page = false;
    pat_index = 0;
  }

  abbrev pub with_structure : Tables → (t i : ℕ) → Tables
  with_structure s t i =
      let pa = next_frame s in
      let e = P.pte_map (s.entries t i) pa (structure_flags s.kernel_space) in
      record s {
        current_index = s.current_index + 1;
        entries = update (write_entry s.entries t i e) pa (λ j. 0);
      }

  unfoldable pub setup_paging_structure : Tables → (t i : ℕ) → Outcome Tables
  setup_paging_structure s t i = do
    assert (ltb s.current_index s.number_of_frames)
    done (with_structure s t i)

  -- The inner loop of `_VmWalkPagingTables`, for the callback `call` with context of type `K`: the
  -- offsets of the levels that are left, the level, and the current table.
  module _ {ℓ} {K : Type ℓ}
      (call : (level t i : ℕ) → Tables → K → Outcome (Bool × Tables × K)) where
    unfoldable pub walk : List ℕ → (level t : ℕ) → Tables → K → Outcome (Tables × K)
    walk [] level t s k = done (s, k)
    walk (i ∷ is) level t s k = do
      (more, s', k') ← call level t i s k
      elim more [
        | false ↦ done (s', k')
        | true ↦
            assert (level == paging_tables_last_level || not (P.page_size_bit (s'.entries t i)))
            >> walk is (suc level) (P.pte_physical_address (s'.entries t i)) s' k'
      ]

  module _ ⦃C : Checks⦄ (pat : PatIndices) where
    abbrev pub page_flags : Bool → MapContext → PteMapFlags
    page_flags kernel c = record {
      executable = C.is_flag_on c.page_rights C.page_rights_execute;
      writable = C.is_flag_on c.page_rights C.page_rights_write;
      pat_index = if c.uncacheable then pat.uncacheable_index else pat.write_back_index;
      global_page = kernel;
      user_access = not kernel;
      paging_structure = false;
    }

    -- `_VmMapPage` for the address `va`
    unfoldable pub map_page :
        MapContext → (va level t i : ℕ) → Tables → Unit {0} → Outcome (Bool × Tables × Unit {0})
    unfolding setup_paging_structure
    map_page c va level t i s k =
        let last = level == paging_tables_last_level in
        let pa = c.physical_address_base + (va - c.virtual_address_base) in
        let e = P.pte_map (s.entries t i) pa (page_flags s.kernel_space c) in
        assert (not (va == null))
        >> (if P.pte_is_present (s.entries t i) && not (last && c.invalidate)
            then done (true, s, tt)
            else (if last
                then done (true, record s { entries = write_entry s.entries t i e }, tt)
                else (do s' ← setup_paging_structure s t i; done (true, s', tt))))

  -- `_VmUnmapPage`
  unfoldable pub unmap_page :
      (release : Bool) → (va level t i : ℕ) → Tables → Unit {0} → Outcome (Bool × Tables × Unit {0})
  unmap_page release va level t i s k =
      let e = s.entries t i in
      let unmapped = record s { entries = write_entry s.entries t i (P.pte_unmap e) } in
      let freed = record unmapped { released = P.pte_physical_address e ∷ s.released } in
      assert (not (va == null))
      >> (if not (P.pte_is_present e)
          then done (false, s, k)
          else (if level == paging_tables_last_level
              then done (true, if release then freed else unmapped, k)
              else done (true, s, k)))

  -- The last part of `_VmRetrievePhyAccess`, for an entry that maps a page.
  unfoldable pub note_access :
      (clear_accessed clear_dirty : Bool) → (t i pa : ℕ) → Tables → Bool × Tables × Found
  note_access ca cd t i pa s =
      let e = s.entries t i in
      let e' = if ca then P.clear_accessed e else e in
      let e'' = if cd then P.clear_dirty e' else e' in
      (
        false,
        record s { entries = write_entry s.entries t i e'' },
        record { physical_address = pa; accessed = P.accessed e; dirty = P.dirty e },
      )

  -- `_VmRetrievePhyAccess`
  unfoldable pub retrieve_phy_access :
      (clear_accessed clear_dirty : Bool)
      → (va level t i : ℕ) → Tables
      → Found
      → Outcome (Bool × Tables × Found)
  unfolding note_access
  retrieve_phy_access ca cd va level t i s k =
      let e = s.entries t i in
      let large = P.pte_large_physical_address e + P.large_page_offset va in
      assert (not (va == null))
      >> (if not (P.pte_is_present e)
          then done (false, s, record k { physical_address = null })
          else (if ltb (level + 1) paging_tables_last_level
              then done (true, s, k)
              else (if level + 1 == paging_tables_last_level
                  then (if P.page_size_bit e
                      then done (note_access ca cd t i large s)
                      else done (true, s, k))
                  else done (note_access ca cd t i (P.pte_physical_address e) s))))

  -- `_VmWalkPagingTables`, for the pages that are left from `va` on.
  module _ {ℓ} {K : Type ℓ}
      (call : (va level t i : ℕ) → Tables → K → Outcome (Bool × Tables × K)) where
    unfoldable pub walk_pages : (cr3 va n : ℕ) → Tables → K → Outcome (Tables × K)
    walk_pages cr3 va zero s k = done (s, k)
    walk_pages cr3 va (suc n) s k = do
      (s', k') ← walk (call va) (P.offsets va) 1 (P.cr3_physical_address cr3) s k
      walk_pages cr3 (va + page_size) n s' k'

  abbrev pub pages : (size : ℕ) → ℕ
  pages size = (size + (page_size - 1)) / page_size

  abbrev pub is_aligned : ℕ → Bool
  is_aligned n = n % page_size == 0

  -- `VmmMapMemoryInternal`, with its arguments in the context
  unfoldable pub map_memory_internal :
      ⦃C : Checks⦄ → PatIndices → Tables → (size : ℕ) → MapContext → Outcome Tables
  map_memory_internal ⦃C⦄ pat s size c = do
    assert (is_aligned c.physical_address_base)
    assert (not (size == 0) && is_aligned size)
    let cr3 = s.base_physical_address
    (s', k) ← walk_pages (map_page pat c) cr3 c.virtual_address_base (pages size) s tt
    done s'

  -- `VmmUnmapMemoryEx`
  unfoldable pub unmap_memory_ex : Tables → (cr3 va size : ℕ) → (release : Bool) → Outcome Tables
  unmap_memory_ex s cr3 va size release =
      if va == null || not (is_aligned va)
      then done s
      else (if size == 0 || not (is_aligned size)
          then done s
          else (do (s', k) ← walk_pages (unmap_page release) cr3 va (pages size) s tt; done s'))

  -- `VmmGetPhysicalAddressEx`; `ca` and `cd` say which of its outputs are wanted.
  unfoldable pub get_physical_address_ex :
      Tables → (cr3 va : ℕ) → (ca cd : Bool) → Outcome (Tables × Found)
  get_physical_address_ex s cr3 va ca cd = do
    assert (not (va == null))
    assert (is_aligned va)
    let k : Found = record { physical_address = null; accessed = false; dirty = false }
    walk_pages (retrieve_phy_access ca cd) cr3 va (pages page_size) s k
