-- ===== src/Paging/Pages.antt =====
-- The walks of src/HAL9000/src/vmm.c over several pages, from the root of the tables.
use good_osd_project.Prelude.{
  ℕ, ◌+◌, ◌*◌, ◌%◌, ◌^◌, ◌≡◌, ◌≢◌, ◌≤◌, ◌<◌, Bool, true, false, List, [], ◌∷◌, Option, length,
  arith, ◌==◌, subst,
}
use good_osd_project.CommonLib.{Checks, page_size}
use good_osd_project.Kernel.{done, Returns, Returns->>=}
use good_osd_project.Paging.Entries.{PteOps}
use good_osd_project.Paging.{
  Tables, Found, MapContext, PatIndices, map_page, walk, walk_pages, retrieve_phy_access,
  get_physical_address_ex,
}
use good_osd_project.Paging.Tree.{Tree, resolve}
use good_osd_project.Paging.Map.{map_walk, IsMapped, IsOpen}
use good_osd_project.Paging.Retrieve.{retrieve_walk, address_of, Finds}

-- An address of 64 bits that extends one of 48 bits by its sign, and a range of such addresses.
abbrev pub IsCanonical : ℕ → Type 0
IsCanonical a = (a < 2 ^ 64) × ((a + 2 ^ 47) % 2 ^ 64 < 2 ^ 48)

abbrev pub InSpace : (va size : ℕ) → Type 0
InSpace va size = (va + size ≤ 2 ^ 64) × ((va + 2 ^ 47) % 2 ^ 64 + size ≤ 2 ^ 48)

-- A page of the range of `n` pages at `va`.
abbrev pub InRange : (va n a : ℕ) → Type 0
InRange va n a = (a % page_size ≡ 0) × (va ≤ a) × (a < va + n * page_size)

module _ ⦃P : PteOps⦄ where
  -- The last entry on the path of an address from the root.
  abbrev pub entry_of : Tables → (va : ℕ) → Option ℕ
  entry_of s va = resolve s.entries (P.offsets va) s.base_physical_address 0

  pub root_lem :
      {s : Tables}
      → Tree s
      → P.cr3_physical_address s.base_physical_address ≡ s.base_physical_address
  root_lem T = P.cr3_aligned _ T.base_aligned (omega (arith, T.base_small))

  pub offsets_ne :
      (a b : ℕ)
      → a % page_size ≡ 0
      → b % page_size ≡ 0
      → IsCanonical a
      → IsCanonical b
      → a ≢ b
      → P.offsets a ≢ P.offsets b
  offsets_ne a b p q h k n e = n (omega (arith, P.offsets_page a b e))

  retrieve_offsets :
      {s : Tables} (T : Tree s) (ca cd : Bool) (va : ℕ) (valid : va ≢ 0) (offs : List ℕ) (k : Found)
      → length offs ≡ 4
      → Returns
          (Finds ca cd va valid s s.base_physical_address offs)
          (walk (retrieve_phy_access ca cd va) offs 1 s.base_physical_address s k)
  retrieve_offsets T ca cd va valid [] k len = absurd (omega arith)
  retrieve_offsets {s} T ca cd va valid (i ∷ is) k len =
      retrieve_walk ca cd va valid T is i 1 s.base_physical_address k T.root (omega arith)
        (omega arith)

  -- `VmmGetPhysicalAddressEx` finds the address of the entry, and `NULL` if there is none.
  pub get_physical_address_ex_lem :
      {s : Tables} (T : Tree s) (va : ℕ) (ca cd : Bool)
      → va ≢ 0
      → va % page_size ≡ 0
      → Returns
          (λ r. r.1.physical_address ≡ address_of (entry_of s va))
          (get_physical_address_ex s s.base_physical_address va ca cd)
  unfolding get_physical_address_ex walk_pages
  get_physical_address_ex_lem {s} T va ca cd valid aligned =
      let v : (va == 0) ≡ false = ground arith in
      let a : (va % page_size == 0) ≡ true = ground arith in
      rw (v, a, root_lem T)
        (Returns->>= (λ (r : Tables × Found). r.1.physical_address ≡ address_of (entry_of s va))
          (walk (retrieve_phy_access ca cd va) (P.offsets va) 1 s.base_physical_address s _)
          (λ r. done r) (retrieve_offsets T ca cd va valid (P.offsets va) _ (P.offsets_length va))
          (λ r h. h))

  module _ ⦃C : Checks⦄ (pat : PatIndices) (c : MapContext) where
    pub map_offsets :
        {s : Tables} (T : Tree s) (va : ℕ) (valid : va ≢ 0) (offs : List ℕ)
        → length offs ≡ 4
        → s.current_index + 3 ≤ s.number_of_frames
        → IsOpen pat c va valid s.entries offs s.base_physical_address
        → Returns
            (IsMapped pat c va valid T s.base_physical_address offs 3)
            (walk (map_page pat c va) offs 1 s.base_physical_address s tt)
    map_offsets T va valid [] len room open_ = absurd (omega arith)
    map_offsets {s} T va valid (i ∷ is) len room open_ =
        let three : length is ≡ 3 = omega arith in
        subst
          (λ n.
            Returns (IsMapped pat c va valid T s.base_physical_address (i ∷ is) n)
              (walk (map_page pat c va) (i ∷ is) 1 s.base_physical_address s tt))
          three
          (map_walk pat c va valid is i T 1 s.base_physical_address T.root (omega arith)
            (omega arith) (omega arith) open_)
