-- ===== src/Mmu.antt =====
-- The physical address of a byte, `MmuGetPhysicalAddressEx` of src/HAL9000/src/mmu.c, on top of the paging
-- tables.
pub mod Byte
use good_osd_project.Prelude.{ℕ, ◌+◌, ◌==◌, Bool, true, false, if◌then◌else◌}
use good_osd_project.CommonLib.{PageMath}
use good_osd_project.Kernel.{Outcome, done, ◌>>=◌, null, qword}
use good_osd_project.Paging.Entries.{PteOps}
use good_osd_project.Paging.{Tables, Found, get_physical_address_ex}

module _ ⦃M : PageMath⦄ ⦃P : PteOps⦄ where
  -- What follows the translation of the page.
  abbrev pub add_offset : (va : ℕ) → Tables × Found → Outcome (Tables × ℕ)
  add_offset va (s, k) = done (s, qword (k.physical_address + M.address_offset va))

  -- `MmuGetPhysicalAddressEx`, with the address of the root of the tables
  unfoldable pub mmu_get_physical_address_ex : Tables → (cr3 va : ℕ) → Outcome (Tables × ℕ)
  mmu_get_physical_address_ex s cr3 va =
      if va == null
      then done (s, null)
      else (get_physical_address_ex s cr3 (M.align_lower va) false false >>= add_offset va)
