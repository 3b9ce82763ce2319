-- ===== src/Tests/Tables.antt =====
-- Entries of page tables in the layout of the hardware, an empty tree of tables, and runs of the
-- theorems on them.
use good_osd_project.Prelude.{
  ℕ, ◌+◌, ◌-◌, ◌*◌, ◌/◌, ◌%◌, ◌^◌, ◌≡◌, ◌≤◌, ◌<◌, Bool, true, false, List, [], ◌∷◌, none, refl,
  arith, inr, inl, ◌⊎◌, ◌==◌, if◌then◌else◌,
}
use good_osd_project.CommonLib.{page_size}
use good_osd_project.Kernel.{Returns, ◌>>=◌, null}
use good_osd_project.Paging.Entries.{PteOps, PteMapFlags}
use good_osd_project.Paging.{Tables, MapContext, PatIndices, map_memory_internal, unmap_memory_ex}
use good_osd_project.Paging.Tree.{Tree, resolve}
use good_osd_project.Paging.Pages.{entry_of}
use good_osd_project.Paging.Translate.{
  Translates, Agree, map_memory-Translates, unmap_memory-Translates,
}
use good_osd_project.Paging.RoundTrip.{map_memory-unmap_memory}
use good_osd_project.Mmu.Byte.{Reads, map_memory-Reads}
use good_osd_project.Tests.Instances.{checks, page_math}

abbrev pub bit : Bool → ℕ → ℕ
bit b n = if b then n else 0

abbrev pub make_entry : (old pa : ℕ) → PteMapFlags → ℕ
make_entry e pa f = pa / 4096 * 4096 + 1 + bit f.writable 2 + bit f.user_access 4

abbrev pub split_address : ℕ → List ℕ
split_address va =
    va / 2 ^ 39 % 512 ∷ va / 2 ^ 30 % 512 ∷ va / 2 ^ 21 % 512 ∷ va / 2 ^ 12 % 512 ∷ []

pub bit_small : (b : Bool) (n : ℕ) → (bit b n ≡ 0) ⊎ (bit b n ≡ n)
bit_small b n = ground arith

pub make_entry-present : (e pa : ℕ) (f : PteMapFlags) → (make_entry e pa f % 2 == 1) ≡ true
make_entry-present e pa f =
    let r : make_entry e pa f % 2 ≡ 1 =
      omega (arith, bit_small f.writable 2, bit_small f.user_access 4) in
    rw r refl

pub make_entry-small : (e pa : ℕ) (f : PteMapFlags) → (make_entry e pa f / 128 % 2 == 1) ≡ false
make_entry-small e pa f =
    let r : make_entry e pa f / 128 % 2 ≡ 0 =
      omega (arith, bit_small f.writable 2, bit_small f.user_access 4) in
    rw r refl

pub make_entry-address :
    (e pa : ℕ) (f : PteMapFlags) → pa % 4096 ≡ 0 → make_entry e pa f / 4096 * 4096 ≡ pa
make_entry-address e pa f p = omega (arith, bit_small f.writable 2, bit_small f.user_access 4)

-- An entry without the flag of value `2 * n`, for a flag that is neither the lowest nor an address.
pub clear_keeps :
    (e n : ℕ)
    → (n ≡ 16) ⊎ (n ≡ 32)
    → (((e - e / (2 * n) % 2 * (2 * n)) % 2 == 1) ≡ (e % 2 == 1))
      × ((e - e / (2 * n) % 2 * (2 * n)) / 4096 * 4096 ≡ e / 4096 * 4096)
clear_keeps e n (inl h) =
    let r : (e - e / 32 % 2 * 32) % 2 ≡ e % 2 = omega arith in rw (h, r) (refl, omega arith)
clear_keeps e n (inr h) =
    let r : (e - e / 64 % 2 * 64) % 2 ≡ e % 2 = omega arith in rw (h, r) (refl, omega arith)

pub split_address-page :
    (a b : ℕ) → split_address a ≡ split_address b → a / 4096 % 2 ^ 36 ≡ b / 4096 % 2 ^ 36
split_address-page a b e = ground arith

pub cr3-aligned : (pa : ℕ) → pa % 4096 ≡ 0 → pa < 2 ^ 52 → pa / 4096 % 2 ^ 40 * 4096 ≡ pa
cr3-aligned pa p h = omega arith

instance abbrev pub pte_ops : PteOps
pte_ops = record {
  pte_is_present = λ e. e % 2 == 1;
  pte_map = make_entry;
  pte_unmap = λ e. 0;
  pte_physical_address = λ e. e / 4096 * 4096;
  pte_large_physical_address = λ e. e / 2 ^ 21 * 2 ^ 21;
  page_size_bit = λ e. e / 128 % 2 == 1;
  accessed = λ e. e / 32 % 2 == 1;
  dirty = λ e. e / 64 % 2 == 1;
  clear_accessed = λ e. e - e / 32 % 2 * 32;
  clear_dirty = λ e. e - e / 64 % 2 * 64;
  offsets = split_address;
  large_page_offset = λ va. va % 2 ^ 21;
  cr3_physical_address = λ c. c / 4096 % 2 ^ 40 * 4096;
  zero_absent = refl;
  map_present = make_entry-present;
  map_physical_address = λ e pa f p h. make_entry-address e pa f p;
  map_small = λ e pa f p. make_entry-small e pa f;
  unmap_absent = λ e. refl;
  clear_accessed_keeps = λ e. clear_keeps e 16 (inl refl);
  clear_dirty_keeps = λ e. clear_keeps e 32 (inr refl);
  offsets_length = λ va. refl;
  offsets_page = split_address-page;
  cr3_aligned = cr3-aligned;
}

-- A root table in the first of 64 frames, with no entry, for the kernel or for a process.
abbrev pub tables_of : (kernel : Bool) → Tables
tables_of kernel = record {
  base_physical_address = 0x10000;
  current_index = 1;
  number_of_frames = 64;
  kernel_space = kernel;
  entries = λ t i. 0;
  released = [];
}

abbrev tables : Tables
tables = tables_of true

abbrev pub root_level : ℕ → ℕ
root_level t = if t == 0x10000 then 1 else 0

pub tables_fresh : (n : ℕ) → 1 ≤ n → root_level (0x10000 + n * page_size) ≡ 0
tables_fresh n h = ground arith

pub no_entry {ℓ} : {A : Type ℓ} → false ≡ true → A
no_entry h = cc

abbrev pub tables_of-Tree : (kernel : Bool) → Tree (tables_of kernel)
tables_of-Tree kernel = record {
  level = root_level;
  parent = λ t. 0;
  slot = λ t. 0;
  root = refl;
  fresh = tables_fresh;
  child_level = λ t i p h e. no_entry e;
  child_parent = λ t i p h e. no_entry e;
  child_slot = λ t i p h e. no_entry e;
  child_small = λ t i p h e. no_entry e;
  base_aligned = omega arith;
  base_small = omega arith;
  few_frames = omega arith;
}

abbrev tables-Tree : Tree tables
tables-Tree = tables_of-Tree true

abbrev pub indices : PatIndices
indices = record { write_back_index = 0; uncacheable_index = 3 }

-- Two pages at 1 GB, for the memory from 1 MB on.
abbrev two_pages : MapContext
two_pages = record {
  physical_address_base = 0x100000;
  virtual_address_base = 0x40000000;
  page_rights = 3;
  invalidate = false;
  uncacheable = false;
}

tables_free : (a : ℕ) → entry_of tables a ≡ none
unfolding resolve
tables_free a = refl

map_memory-Translates_example :
    Returns
      (λ s'.
        Tree s'
        × Translates s' 0x40001000 true false 0x101000
        × Agree tables s' 0x40002000 true false)
      (map_memory_internal indices tables 0x2000 two_pages)
map_memory-Translates_example =
    map_memory-Translates indices two_pages tables-Tree 0x2000 (omega arith) (omega arith)
      (omega arith) (omega arith) (λ a i. inr (tables_free a)) 0x40001000 0x40002000 true false
      (omega arith) (omega arith) (omega arith)

map_memory-Reads_example :
    Returns
      (λ s'. Reads s' 0x40001234 0x101234)
      (map_memory_internal indices tables 0x2000 two_pages)
map_memory-Reads_example =
    map_memory-Reads indices two_pages tables-Tree 0x2000 (omega arith) (omega arith) (omega arith)
      (omega arith) (λ a i. inr (tables_free a)) 0x40001234 (omega arith) (omega arith)

unmap_memory-Translates_example :
    Returns
      (λ s'.
        Tree s' × Translates s' 0x40001000 true true null × Agree tables s' 0x40002000 true true)
      (unmap_memory_ex tables 0x10000 0x40000000 0x2000 true)
unmap_memory-Translates_example =
    unmap_memory-Translates tables-Tree 0x40000000 0x2000 (omega arith) true 0x40001000 0x40002000
      true true (omega arith) (omega arith) (omega arith)

map_memory-unmap_memory_example :
    Returns
      (λ s''.
        Tree s''
        × Agree tables s'' 0x40001000 false false
        × (s''.released ≡ 0x101000 ∷ 0x100000 ∷ []))
      (map_memory_internal indices tables 0x2000 two_pages >>= λ s'.
        unmap_memory_ex s' s'.base_physical_address 0x40000000 0x2000 true)
map_memory-unmap_memory_example =
    map_memory-unmap_memory indices two_pages tables-Tree 0x2000 (omega arith) (omega arith)
      (omega arith) (omega arith) (λ a i. tables_free a) 0x40001000 false false (omega arith)
