-- ===== src/Paging/Translate.antt =====
-- What `VmmMapMemoryInternal`, `VmmUnmapMemoryEx` and `VmmGetPhysicalAddressEx` of
-- src/HAL9000/src/vmm.c promise each other.
use good_osd_project.Prelude.{
  ℕ, ◌+◌, ◌-◌, ◌*◌, ◌%◌, ◌^◌, ◌≡◌, ◌≢◌, ◌≤◌, Bool, true, false, sym, ◌∙◌, refl, arith, ap, ◌==◌,
  not, ◌&&◌, ◌||◌,
}
use good_osd_project.CommonLib.{Checks, page_size}
use good_osd_project.Kernel.{Outcome, done, bug_check, spinning, Returns, Returns-map, ◌>>=◌, null}
use good_osd_project.Paging.Entries.{PteOps}
use good_osd_project.Paging.{
  Tables, MapContext, PatIndices, Found, map_page, unmap_page, walk_pages, pages,
  map_memory_internal, unmap_memory_ex, get_physical_address_ex,
}
use good_osd_project.Paging.Tree.{Tree}
use good_osd_project.Paging.Retrieve.{address_of}
use good_osd_project.Paging.Pages.{
  IsCanonical, InSpace, entry_of, InRange, get_physical_address_ex_lem,
}
use good_osd_project.Paging.Range.{map_range, MapsRange, entry_for, IsFree}
use good_osd_project.Paging.Clear.{unmap_range, UnmapsRange}

module _ ⦃P : PteOps⦄ where
  -- `VmmGetPhysicalAddressEx` returns `pa` for the page at `a`.
  abbrev pub Translates : Tables → (a : ℕ) → (ca cd : Bool) → (pa : ℕ) → Type 0
  Translates s a ca cd pa =
      Returns (λ r. r.1.physical_address ≡ pa)
        (get_physical_address_ex s s.base_physical_address a ca cd)

  -- `VmmGetPhysicalAddressEx` returns the same address for the page at `a` in both tables.
  abbrev pub Agree : (s s' : Tables) → (a : ℕ) → (ca cd : Bool) → Type 0
  Agree s s' a ca cd =
      Returns (λ r. Translates s' a ca cd r.1.physical_address)
        (get_physical_address_ex s s.base_physical_address a ca cd)

  -- A page that the hardware can translate and the code accepts.
  abbrev pub IsPage : ℕ → Type 0
  IsPage a = (a % page_size ≡ 0) × (a ≢ 0) × IsCanonical a

  -- A range of pages of `size` bytes, which is not empty.
  abbrev pub IsRange : (va size : ℕ) → Type 0
  IsRange va size =
      (va % page_size ≡ 0) × (va ≢ 0) × InSpace va size × (size % page_size ≡ 0) × (size ≢ 0)

  pub Translates-of :
      {s : Tables} (T : Tree s) (a : ℕ) (ca cd : Bool) (pa : ℕ)
      → IsPage a
      → address_of (entry_of s a) ≡ pa
      → Translates s a ca cd pa
  Translates-of {s} T a ca cd pa p e =
      Returns-map {A = Tables × Found} {P = λ r. r.1.physical_address ≡ address_of (entry_of s a)}
        (get_physical_address_ex s s.base_physical_address a ca cd) (λ r h. h ∙ e)
        (get_physical_address_ex_lem T a ca cd p.1 p.0)

  pub Agree-of :
      {s s' : Tables} (T : Tree s) (T' : Tree s') (a : ℕ) (ca cd : Bool)
      → IsPage a
      → entry_of s' a ≡ entry_of s a
      → Agree s s' a ca cd
  Agree-of {s} {s'} T T' a ca cd p e =
      Returns-map {A = Tables × Found} {P = λ r. r.1.physical_address ≡ address_of (entry_of s a)}
        {Q = λ r. Translates s' a ca cd r.1.physical_address}
        (get_physical_address_ex s s.base_physical_address a ca cd)
        (λ r h. Translates-of T' a ca cd _ p (ap address_of e ∙ sym h))
        (get_physical_address_ex_lem T a ca cd p.1 p.0)

  Returns-tables :
      (Q : Tables → Type 0) (o : Outcome (Tables × Unit {0}))
      → Returns (λ r. Q r.0) o
      → Returns Q (o >>= λ r. done r.0)
  Returns-tables Q (done r) h = h
  Returns-tables Q bug_check h = h
  Returns-tables Q spinning h = h

  pub pages_lem : (va size : ℕ) → IsRange va size → pages size * page_size ≡ size
  pages_lem va size h = omega arith

  pub InRange-IsPage : (va size a : ℕ) → IsRange va size → InRange va (pages size) a → IsPage a
  InRange-IsPage va size a h i =
      (i.0, λ e. absurd (omega arith), omega (arith, pages_lem va size h))

  module _ ⦃C : Checks⦄ (pat : PatIndices) (c : MapContext) {s : Tables} (T : Tree s) (size : ℕ)
      (range : IsRange c.virtual_address_base size)
      (aligned : c.physical_address_base % page_size ≡ 0)
      (small : c.physical_address_base + size ≤ 2 ^ 52)
      (room : s.current_index + 3 * pages size ≤ s.number_of_frames)
      (free : (a : ℕ) → InRange c.virtual_address_base (pages size) a → IsFree pat c s a) where
    pub map_memory-MapsRange :
        Returns
          (MapsRange pat c T c.virtual_address_base (pages size))
          (map_memory_internal pat s size c)
    unfolding map_memory_internal
    map_memory-MapsRange =
        let p : (c.physical_address_base % page_size == 0) ≡ true = ground arith in
        let q : not (size == 0) && (size % page_size == 0) ≡ true = ground arith in
        rw (p, q)
          (Returns-tables (MapsRange pat c T c.virtual_address_base (pages size))
            (walk_pages (map_page pat c) s.base_physical_address c.virtual_address_base (pages size)
              s tt)
            (map_range pat c (pages size) c.virtual_address_base s.base_physical_address T refl
              range.1 range.0 (omega (arith, pages_lem c.virtual_address_base size range)) room
              free))

    pub entry-address :
        (old a : ℕ)
        → InRange c.virtual_address_base (pages size) a
        → P.pte_physical_address (entry_for pat c s.kernel_space old a)
          ≡ c.physical_address_base + (a - c.virtual_address_base)
    entry-address old a i =
        P.map_physical_address _ _ _ (omega arith)
          (omega (arith, pages_lem c.virtual_address_base size range))

    -- The mapping of one page of the range.
    pub map_memory-page :
        (a : ℕ) (ca cd : Bool)
        → InRange c.virtual_address_base (pages size) a
        → Returns
            (λ s'. Translates s' a ca cd (c.physical_address_base + (a - c.virtual_address_base)))
            (map_memory_internal pat s size c)
    map_memory-page a ca cd i =
        Returns-map {A = Tables} {P = MapsRange pat c T c.virtual_address_base (pages size)}
          (map_memory_internal pat s size c)
          (λ s' M.
            let (old, e) = M.inside a i in
            Translates-of M.tree a ca cd _ (InRange-IsPage c.virtual_address_base size a range i)
              (ap address_of e ∙ entry-address old a i))
          map_memory-MapsRange

    -- A range of whole pages, not empty, without the null page and within the canonical addresses is
    -- mapped to physical memory that begins at a page and ends below 2^52, in a tree of tables with
    -- three frames left for each page and, unless old mappings are to be replaced, no page of the
    -- range mapped: the call returns, and leaves a tree. From then on the tables translate each page
    -- of the range to its own page of that memory, and each other page to what they did before.
    pub map_memory-Translates :
        (a b : ℕ) (ca cd : Bool)
        → InRange c.virtual_address_base (pages size) a
        → IsPage b
        → ¬ InRange c.virtual_address_base (pages size) b
        → Returns
            (λ s'.
              Tree s'
              × Translates s' a ca cd (c.physical_address_base + (a - c.virtual_address_base))
              × Agree s s' b ca cd)
            (map_memory_internal pat s size c)
    map_memory-Translates a b ca cd i p d =
        Returns-map {A = Tables} {P = MapsRange pat c T c.virtual_address_base (pages size)}
          (map_memory_internal pat s size c)
          (λ s' M.
            let (old, e) = M.inside a i in
            (
              M.tree,
              Translates-of M.tree a ca cd _ (InRange-IsPage c.virtual_address_base size a range i)
                  (ap address_of e ∙ entry-address old a i),
              Agree-of T M.tree b ca cd p (M.outside b p.0 p.2 d),
            ))
          map_memory-MapsRange

  module _ {s : Tables} (T : Tree s) (va size : ℕ) (range : IsRange va size) (release : Bool) where
    pub unmap_memory-UnmapsRange :
        Returns
          (UnmapsRange release T va (pages size))
          (unmap_memory_ex s s.base_physical_address va size release)
    unfolding unmap_memory_ex
    unmap_memory-UnmapsRange =
        let p : ((va == 0) || not (va % page_size == 0)) ≡ false = ground arith in
        let q : ((size == 0) || not (size % page_size == 0)) ≡ false = ground arith in
        rw (p, q)
          (Returns-tables (UnmapsRange release T va (pages size))
            (walk_pages (unmap_page release) s.base_physical_address va (pages size) s tt)
            (unmap_range release (pages size) va s.base_physical_address T refl range.1 range.0
              (omega (arith, pages_lem va size range))))

    -- A range of whole pages, not empty, without the null page and within the canonical addresses is
    -- unmapped in a tree of tables, with or without the release of its memory: the call returns, and
    -- leaves a tree. From then on the tables translate no page of the range, and each other page to
    -- what they did before.
    pub unmap_memory-Translates :
        (a b : ℕ) (ca cd : Bool)
        → InRange va (pages size) a
        → IsPage b
        → ¬ InRange va (pages size) b
        → Returns
            (λ s'. Tree s' × Translates s' a ca cd null × Agree s s' b ca cd)
            (unmap_memory_ex s s.base_physical_address va size release)
    unmap_memory-Translates a b ca cd i p d =
        Returns-map {A = Tables} {P = UnmapsRange release T va (pages size)}
          (unmap_memory_ex s s.base_physical_address va size release)
          (λ s' M. (
            M.tree,
            Translates-of M.tree a ca cd _ (InRange-IsPage va size a range i)
                (ap address_of (M.inside a i)),
            Agree-of T M.tree b ca cd p (M.outside b p.0 p.2 d),
          ))
          unmap_memory-UnmapsRange
