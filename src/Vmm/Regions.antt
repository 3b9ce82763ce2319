-- ===== src/Vmm/Regions.antt =====
-- What `VmmFreeRegionEx` of src/HAL9000/src/vmm.c does to the pages of a region, by way of
-- `MmuUnmapMemoryEx` of src/HAL9000/src/mmu.c.
use std.Path.{fun_ext}
use good_osd_project.Prelude.{ℕ, ◌%◌, ◌^◌, ◌≡◌, ◌≢◌, Bool, true, Option, refl, arith, ap}
use good_osd_project.CommonLib.{Checks, PageMath, BitmapOps, page_size}
use good_osd_project.Kernel.{Outcome, done, ◌>>=◌, null}
use good_osd_project.Paging.Entries.{PteOps}
use good_osd_project.Paging.{pages}
use good_osd_project.Paging.Tree.{Tree}
use good_osd_project.Paging.Pages.{InRange}
use good_osd_project.Paging.Translate.{Translates, Agree, IsPage}
use good_osd_project.Vm.{Space}
use good_osd_project.Vm.Access.{FreeType, Uninitialized, free_region}
use good_osd_project.Vmm.{Memory, unmap_memory, unmap_metadata, free_region_ex}
use good_osd_project.Vmm.Metadata.{InBuffer, kernel_side, unmap_memory_large}

module _ ⦃C : Checks⦄ ⦃M : PageMath⦄ ⦃B : BitmapOps⦄ ⦃P : PteOps⦄ where
  module _ (s s' : Space) (m : Memory) (address size at n : ℕ) (ty : FreeType)
      (gone : Option Uninitialized)
      (freed : free_region s address size ty ≡ done (at, n, gone, s')) where
    free_region_ex-eq :
        (release_frames : Bool)
        → at ≢ 0
        → n ≢ 0
        → free_region_ex s m address size ty release_frames ≡ (
            unmap_metadata m gone >>= λ m'.
            unmap_memory m'.tables at n release_frames >>= λ t. done (s', record m' { tables = t }))
    unfolding free_region_ex free_region
    free_region_ex-eq release_frames real some_bytes = ground arith

    abbrev in_kernel : Bool
    in_kernel = m.tables.kernel_space

    -- What becomes of the pages of the region, of the buffer, and of all others.
    pub record Unmapped (r : Space × Memory) : Type 0 where
      pub space : r.0 ≡ s'
      pub tree : Tree r.1.tables
      pub region :
          (a : ℕ) (ca cd : Bool) → InRange at (pages n) a → Translates r.1.tables a ca cd null
      pub buffer :
          (a : ℕ) (ca cd : Bool)
          → IsPage a
          → InBuffer gone a
          → Translates (kernel_side in_kernel r.1) a ca cd null
      pub others :
          (a : ℕ) (ca cd : Bool)
          → IsPage a
          → ¬ InRange at (pages n) a
          → ¬ ((in_kernel ≡ true) × InBuffer gone a)
          → Agree m.tables r.1.tables a ca cd
      pub kernel_others :
          (a : ℕ) (ca cd : Bool)
          → IsPage a
          → ¬ ((in_kernel ≡ true) × InRange at (pages n) a)
          → ¬ InBuffer gone a
          → Agree (kernel_side in_kernel m) (kernel_side in_kernel r.1) a ca cd

    -- Where that range, of whole pages and without the null page, has a multiple of 4 GB, the call gives
    -- the range up and unmaps not one page of it: all that it unmaps is what a release gives back.
    pub free_region_ex-keeps_pages :
        (release_frames : Bool)
        → at ≢ 0
        → at % page_size ≡ 0
        → n ≢ 0
        → n % 2 ^ 32 ≡ 0
        → free_region_ex s m address size ty release_frames
          ≡ (unmap_metadata m gone >>= λ m'. done (s', m'))
    free_region_ex-keeps_pages f real whole some_bytes large =
        rw (free_region_ex-eq f real some_bytes) (
          ap (λ (g : Memory → Outcome (Space × Memory)). unmap_metadata m gone >>= g)
            (fun_ext
              (λ m'. rw (unmap_memory_large m'.tables at n f real whole some_bytes large) refl)))
