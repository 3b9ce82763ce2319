-- ===== src/Mmu/Byte.antt =====
-- The bytes of a range that is mapped, through src/HAL9000/src/mmu.c and src/HAL9000/src/vmm.c.
use good_osd_project.Prelude.{
  ℕ, ◌+◌, ◌-◌, ◌*◌, ◌%◌, ◌^◌, ◌≡◌, ◌≢◌, ◌≤◌, ◌<◌, false, arith, ◌==◌, subst,
}
use good_osd_project.CommonLib.{PageMath, Checks, page_size}
use good_osd_project.Kernel.{Returns, Returns-map, Returns->>=}
use good_osd_project.Paging.Entries.{PteOps}
use good_osd_project.Paging.{
  Tables, MapContext, PatIndices, pages, map_memory_internal, get_physical_address_ex,
}
use good_osd_project.Paging.Tree.{Tree}
use good_osd_project.Paging.Pages.{InRange}
use good_osd_project.Paging.Range.{IsFree}
use good_osd_project.Paging.Translate.{Translates, IsRange, map_memory-page, pages_lem}
use good_osd_project.Mmu.{add_offset, mmu_get_physical_address_ex}

module _ ⦃M : PageMath⦄ ⦃P : PteOps⦄ where
  -- `MmuGetPhysicalAddressEx` returns this address for the byte at `x`.
  abbrev pub Reads : Tables → (x pa : ℕ) → Type 0
  Reads s x pa = Returns (λ r. r.1 ≡ pa) (mmu_get_physical_address_ex s s.base_physical_address x)

  Translates-Reads :
      (s : Tables) (x pa : ℕ)
      → x ≢ 0
      → pa + page_size ≤ 2 ^ 64
      → Translates s (M.align_lower x) false false pa
      → Reads s x (pa + M.address_offset x)
  unfolding mmu_get_physical_address_ex
  Translates-Reads s x pa real small t =
      let z : (x == 0) ≡ false = ground arith in
      let lt = M.offset_small x in
      rw z (
        Returns->>= (λ r. r.1 ≡ pa + M.address_offset x)
          (get_physical_address_ex s s.base_physical_address (M.align_lower x) false false)
          (add_offset x) t (λ r e. omega arith))

  -- The page of a byte of a range.
  in_page :
      (va size x : ℕ)
      → IsRange va size
      → va ≤ x
      → x < va + size
      → InRange va (pages size) (M.align_lower x)
        × (x ≢ 0)
        × (M.align_lower x + M.address_offset x ≡ x)
  in_page va size x r lo hi =
      let p = pages_lem va size r in
      let a = M.align_lower_aligned x in
      let o = M.align_lower_offset x in
      let q = M.offset_small x in (omega arith, (λ e. absurd (omega arith)), o)

  module _ ⦃C : Checks⦄ (pat : PatIndices) (c : MapContext) {s : Tables} (T : Tree s) (size : ℕ)
      (range : IsRange c.virtual_address_base size)
      (aligned : c.physical_address_base % page_size ≡ 0)
      (small : c.physical_address_base + size ≤ 2 ^ 52)
      (room : s.current_index + 3 * pages size ≤ s.number_of_frames)
      (free : (a : ℕ) → InRange c.virtual_address_base (pages size) a → IsFree pat c s a) where
    -- A range of whole pages, not empty, without the null page and within the canonical addresses is
    -- mapped to physical memory that begins at a page and ends below 2^52, in a tree of tables with three
    -- frames left for each page and, unless old mappings are to be replaced, no page of the range mapped:
    -- the call returns, and from then on `MmuGetPhysicalAddressEx` returns, for every byte of the range,
    -- the byte of that memory that lies as far behind its beginning.
    pub map_memory-Reads :
        (x : ℕ)
        → c.virtual_address_base ≤ x
        → x < c.virtual_address_base + size
        → Returns
            (λ s'. Reads s' x (c.physical_address_base + (x - c.virtual_address_base)))
            (map_memory_internal pat s size c)
    map_memory-Reads x lo hi =
        let (i, real, o) = in_page c.virtual_address_base size x range lo hi in
        let a = M.align_lower x in
        let e : c.physical_address_base + (a - c.virtual_address_base) + M.address_offset x
            ≡ c.physical_address_base + (x - c.virtual_address_base) =
          omega arith in
        Returns-map {A = Tables}
          {P = λ s'.
            Translates s' a false false (c.physical_address_base + (a - c.virtual_address_base))}
          (map_memory_internal pat s size c)
          (λ s' t. subst (λ (n : ℕ). Reads s' x n) e (Translates-Reads s' x _ real (omega arith) t))
          (map_memory-page pat c T size range aligned small room free a false false i)
