-- ===== src/Vmm/Metadata.antt =====
-- The unmapping of ranges by `MmuUnmapMemoryEx` of src/HAL9000/src/mmu.c, and of the buffer of a
-- reservation's commit bitmap, in `_VmUninitializeReservation` of
-- src/HAL9000/src/vm_reservation_space.c.
use good_osd_project.Prelude.{
  ℕ, ◌+◌, ◌-◌, ◌%◌, ◌^◌, ◌≡◌, ◌≢◌, ◌<◌, Bool, true, false, not, ◌&&◌, ◌||◌, Option, some, none,
  refl, arith, ◌==◌, ◌*◌, ◌∙◌, ltb, leb, inl, inr, Bool-cases,
}
use good_osd_project.CommonLib.{Checks, PageMath, BitmapOps, page_size}
use good_osd_project.Kernel.{done, Returns, Returns->>=, dword}
use good_osd_project.Paging.Entries.{PteOps}
use good_osd_project.Paging.{Tables, pages, unmap_memory_ex}
use good_osd_project.Paging.Tree.{Tree}
use good_osd_project.Paging.Pages.{InRange, IsCanonical, entry_of}
use good_osd_project.Paging.Clear.{UnmapsRange}
use good_osd_project.Paging.Translate.{IsPage, IsRange, unmap_memory-UnmapsRange}
use good_osd_project.Vm.Access.{Uninitialized}
use good_osd_project.Vmm.{Memory, unmap_memory, unmap_buffer, unmap_metadata}

module _ ⦃C : Checks⦄ ⦃M : PageMath⦄ ⦃B : BitmapOps⦄ ⦃P : PteOps⦄ where
  align_lower_self : (a : ℕ) → a % page_size ≡ 0 → M.align_lower a ≡ a
  align_lower_self a h =
      omega (arith, M.align_lower_aligned a, M.align_lower_offset a, M.offset_small a)

  align_upper_self : (a : ℕ) → a % page_size ≡ 0 → M.align_upper a ≡ a
  align_upper_self a h = omega (arith, M.align_upper_aligned a, M.align_upper_least a)

  unmap_memory-eq :
      (s : Tables) (va n : ℕ) (release_frames : Bool)
      → va ≢ 0
      → va % page_size ≡ 0
      → n ≢ 0
      → M.align_upper n < 2 ^ 32
      → unmap_memory s va n release_frames
        ≡ unmap_memory_ex s s.base_physical_address va (M.align_upper n) release_frames
  unfolding unmap_memory
  unmap_memory-eq s va n release_frames real whole some_bytes small =
      let p : not (va == 0) ≡ true = ground arith in
      let q : not (n == 0) ≡ true = ground arith in
      let z : n + dword (va - va) ≡ n = omega arith in
      let w : dword (M.align_upper n) ≡ M.align_upper n = omega arith in
      rw (p, q, align_lower_self va whole, z, w) refl

  -- `MmuUnmapMemoryEx` from a page on, for a size that is rounded up to pages.
  unmap_memory-UnmapsPages :
      {s : Tables} (T : Tree s) (va n : ℕ) (release_frames : Bool)
      → n ≢ 0
      → IsRange va (M.align_upper n)
      → M.align_upper n < 2 ^ 32
      → Returns
          (UnmapsRange release_frames T va (pages (M.align_upper n)))
          (unmap_memory s va n release_frames)
  unmap_memory-UnmapsPages {s} T va n release_frames some_bytes range small =
      rw (unmap_memory-eq s va n release_frames range.1 range.0 some_bytes small)
        (unmap_memory-UnmapsRange T va (M.align_upper n) range release_frames)

  pub unmap_memory-UnmapsWhole :
      {s : Tables} (T : Tree s) (va n : ℕ) (release_frames : Bool)
      → IsRange va n
      → n < 2 ^ 32
      → Returns (UnmapsRange release_frames T va (pages n)) (unmap_memory s va n release_frames)
  unmap_memory-UnmapsWhole {s} T va n f range small =
      let e : M.align_upper n ≡ n = align_upper_self n range.3 in
      rw
        (
          unmap_memory-eq s va n f range.1 range.0 range.4
              (omega (arith, align_upper_self n range.3)),
          e,
        )
        (unmap_memory-UnmapsRange T va n range f)

  -- A range of a multiple of 4 GB is no range.
  pub unmap_memory_large :
      (s : Tables) (va n : ℕ) (release_frames : Bool)
      → va ≢ 0
      → va % page_size ≡ 0
      → n ≢ 0
      → n % 2 ^ 32 ≡ 0
      → unmap_memory s va n release_frames ≡ done s
  unfolding unmap_memory unmap_memory_ex
  unmap_memory_large s va n f real whole some_bytes large =
      let p : not (va == 0) ≡ true = ground arith in
      let q : not (n == 0) ≡ true = ground arith in
      let z : n + dword (va - va) ≡ n = omega arith in
      let e : M.align_upper n ≡ n = align_upper_self n (omega arith) in
      let r : ((va == 0) || not (va % page_size == 0)) ≡ false = ground arith in
      rw (p, q, align_lower_self va whole, z, e, large, r) refl

  -- An entry that is gone stays so when a range is unmapped.
  UnmapsRange-none :
      {s : Tables} (T : Tree s) (va n : ℕ) (release_frames : Bool) (t : Tables) (a : ℕ)
      → UnmapsRange release_frames T va n t
      → a % page_size ≡ 0
      → IsCanonical a
      → entry_of s a ≡ none
      → entry_of t a ≡ none
  UnmapsRange-none T va n release_frames t a U d h e =
      elim (Bool-cases (leb va a && ltb a (va + n * page_size))) [
        | inl i ↦ U.inside a (d, ground arith, ground arith)
        | inr o ↦ U.outside a d h (λ i. ground arith) ∙ e
      ]

  -- The pages of the buffer that a release gives back.
  abbrev pub InBuffer : Option Uninitialized → ℕ → Type 0
  InBuffer none a = ⊥
  InBuffer (some u) a = InRange u.unmapped_buffer (pages (M.align_upper u.unmapped_size)) a

  -- The buffer that a release gives back has bytes, less than 4 GB, within the canonical addresses and
  -- without the null page.
  abbrev pub IsBuffer : Option Uninitialized → Type 0
  IsBuffer none = Unit
  IsBuffer (some u) =
      (u.unmapped_size ≢ 0)
      × IsRange u.unmapped_buffer (M.align_upper u.unmapped_size)
      × (M.align_upper u.unmapped_size < 2 ^ 32)

  -- The kernel's tables, which are those in use or stand beside them.
  abbrev pub kernel_side : (in_kernel : Bool) → Memory → Tables
  kernel_side true m = m.tables
  kernel_side false m = m.kernel_tables

  -- The kernel's tables have lost the pages of the buffer, and the tables hold all else.
  pub record Cleared (in_kernel : Bool) (gone : Option Uninitialized) (m m' : Memory) : Type 0 where
    pub tree : Tree m'.tables
    pub kernel_tree : Tree (kernel_side in_kernel m')
    pub inside : (a : ℕ) → InBuffer gone a → entry_of (kernel_side in_kernel m') a ≡ none
    pub outside :
        (a : ℕ)
        → IsPage a
        → ¬ InBuffer gone a
        → entry_of (kernel_side in_kernel m') a ≡ entry_of (kernel_side in_kernel m) a
    pub in_use :
        (a : ℕ)
        → IsPage a
        → ¬ ((in_kernel ≡ true) × InBuffer gone a)
        → entry_of m'.tables a ≡ entry_of m.tables a

  unmap_buffer-Cleared :
      (in_kernel : Bool) (m : Memory) (u : Uninitialized)
      → Tree m.tables
      → Tree (kernel_side in_kernel m)
      → IsBuffer (some u)
      → Returns (Cleared in_kernel (some u) m) (unmap_buffer in_kernel m u)
  unfolding unmap_buffer
  unmap_buffer-Cleared true m u T K (n, range, small) =
      Returns->>= {P = UnmapsRange true T u.unmapped_buffer (pages (M.align_upper u.unmapped_size))}
        (Cleared true (some u) m) (unmap_memory m.tables u.unmapped_buffer u.unmapped_size true)
        (λ t. done (record m { tables = t }))
        (unmap_memory-UnmapsPages T u.unmapped_buffer u.unmapped_size true n range small)
        (λ t U. record {
          tree = U.tree;
          kernel_tree = U.tree;
          inside = U.inside;
          outside = λ a p d. U.outside a p.0 p.2 d;
          in_use = λ a p d. U.outside a p.0 p.2 (λ i. d (refl, i));
        })
  unmap_buffer-Cleared false m u T K (n, range, small) =
      Returns->>= {P = UnmapsRange true K u.unmapped_buffer (pages (M.align_upper u.unmapped_size))}
        (Cleared false (some u) m)
        (unmap_memory m.kernel_tables u.unmapped_buffer u.unmapped_size true)
        (λ t. done (record m { kernel_tables = t }))
        (unmap_memory-UnmapsPages K u.unmapped_buffer u.unmapped_size true n range small)
        (λ t U. record {
          tree = T;
          kernel_tree = U.tree;
          inside = U.inside;
          outside = λ a p d. U.outside a p.0 p.2 d;
          in_use = λ a p d. refl;
        })

  pub unmap_metadata-Cleared :
      (m : Memory) (gone : Option Uninitialized)
      → Tree m.tables
      → Tree (kernel_side m.tables.kernel_space m)
      → IsBuffer gone
      → Returns (Cleared m.tables.kernel_space gone m) (unmap_metadata m gone)
  unfolding unmap_metadata
  unmap_metadata-Cleared m none T K h = record {
    tree = T;
    kernel_tree = K;
    inside = λ a i. absurd i;
    outside = λ a p d. refl;
    in_use = λ a p d. refl;
  }
  unmap_metadata-Cleared m (some u) T K h = unmap_buffer-Cleared m.tables.kernel_space m u T K h

  -- The kernel's tables once the region has left the tables in use as well.
  pub kernel_side-inside :
      (in_kernel : Bool) (gone : Option Uninitialized) (m m' : Memory)
      (C' : Cleared in_kernel gone m m') (at n : ℕ) (release_frames : Bool) (t : Tables)
      → UnmapsRange release_frames C'.tree at n t
      → (a : ℕ) → IsPage a
      → InBuffer gone a
      → entry_of (kernel_side in_kernel (record m' { tables = t })) a ≡ none
  kernel_side-inside true given m m' C' at n f t U a p i =
      UnmapsRange-none C'.tree at n f t a U p.0 p.2 (C'.inside a i)
  kernel_side-inside false given m m' C' at n f t U a p i = C'.inside a i

  pub kernel_side-outside :
      (in_kernel : Bool) (gone : Option Uninitialized) (m m' : Memory)
      (C' : Cleared in_kernel gone m m') (at n : ℕ) (release_frames : Bool) (t : Tables)
      → UnmapsRange release_frames C'.tree at n t
      → (a : ℕ) → IsPage a
      → ¬ ((in_kernel ≡ true) × InRange at n a)
      → ¬ InBuffer gone a
      → entry_of (kernel_side in_kernel (record m' { tables = t })) a
        ≡ entry_of (kernel_side in_kernel m) a
  kernel_side-outside true given m m' C' at n f t U a p d o =
      U.outside a p.0 p.2 (λ i. d (refl, i)) ∙ C'.outside a p o
  kernel_side-outside false given m m' C' at n f t U a p d o = C'.outside a p o

  pub kernel_side-Tree :
      (in_kernel : Bool) (gone : Option Uninitialized) (m m' : Memory)
      (C' : Cleared in_kernel gone m m') (at n : ℕ) (release_frames : Bool) (t : Tables)
      → UnmapsRange release_frames C'.tree at n t
      → Tree (kernel_side in_kernel (record m' { tables = t }))
  kernel_side-Tree true given m m' C' at n f t U = U.tree
  kernel_side-Tree false given m m' C' at n f t U = C'.kernel_tree
