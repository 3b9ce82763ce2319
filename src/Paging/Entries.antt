-- ===== src/Paging/Entries.antt =====
-- What the paging code takes from CommonLib's pte.h: the raw entries of the tables and the offsets of
-- an address in them, with their documented behaviour as laws.
use good_osd_project.Prelude.{ℕ, ◌/◌, ◌%◌, ◌^◌, ◌<◌, ◌≡◌, Bool, true, false, List, length}
use good_osd_project.CommonLib.{page_size}

-- `PTE_MAP_FLAGS`
pub record PteMapFlags : Type 0 where
  pub writable : Bool
  pub executable : Bool
  pub paging_structure : Bool
  pub user_access : Bool
  pub global_page : Bool
  pub pat_index : ℕ

-- `offsets` lists `MASK_PML4_OFFSET` to `MASK_PTE_OFFSET` of an address, and
-- `large_page_offset` is its offset in a page of 2 MB. An entry of zeros is not present.
pub record PteOps : Type 0 where
  pub pte_is_present : ℕ → Bool
  pub pte_map : (old pa : ℕ) → PteMapFlags → ℕ
  pub pte_unmap : ℕ → ℕ
  pub pte_physical_address : ℕ → ℕ
  pub pte_large_physical_address : ℕ → ℕ
  pub page_size_bit : ℕ → Bool
  pub accessed : ℕ → Bool
  pub dirty : ℕ → Bool
  pub clear_accessed : ℕ → ℕ
  pub clear_dirty : ℕ → ℕ
  pub offsets : ℕ → List ℕ
  pub large_page_offset : ℕ → ℕ
  pub cr3_physical_address : ℕ → ℕ
  pub zero_absent : pte_is_present 0 ≡ false
  pub map_present : (e pa : ℕ) (f : PteMapFlags) → pte_is_present (pte_map e pa f) ≡ true
  pub map_physical_address :
      (e pa : ℕ) (f : PteMapFlags)
      → pa % page_size ≡ 0
      → pa < 2 ^ 52
      → pte_physical_address (pte_map e pa f) ≡ pa
  pub map_small :
      (e pa : ℕ) (f : PteMapFlags)
      → pte_is_present e ≡ false
      → page_size_bit (pte_map e pa f) ≡ false
  pub unmap_absent : (e : ℕ) → pte_is_present (pte_unmap e) ≡ false
  pub clear_accessed_keeps :
      (e : ℕ)
      → (pte_is_present (clear_accessed e) ≡ pte_is_present e)
        × (pte_physical_address (clear_accessed e) ≡ pte_physical_address e)
  pub clear_dirty_keeps :
      (e : ℕ)
      → (pte_is_present (clear_dirty e) ≡ pte_is_present e)
        × (pte_physical_address (clear_dirty e) ≡ pte_physical_address e)
  pub offsets_length : (va : ℕ) → length (offsets va) ≡ 4
  pub offsets_page :
      (a b : ℕ) → offsets a ≡ offsets b → a / page_size % 2 ^ 36 ≡ b / page_size % 2 ^ 36
  pub cr3_aligned : (pa : ℕ) → pa % page_size ≡ 0 → pa < 2 ^ 52 → cr3_physical_address pa ≡ pa
