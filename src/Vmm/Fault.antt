-- ===== src/Vmm/Fault.antt =====
-- Page faults, `VmmSolvePageFault` of src/HAL9000/src/vmm.c: what a solved fault leaves behind, and what
-- a refused one does.
use good_osd_project.Prelude.{
  List, ◌∷◌, Option, ℕ, ◌+◌, ◌-◌, ◌*◌, ◌%◌, ◌^◌, ◌≡◌, ◌≢◌, ◌≤◌, leb, ◌⊎◌, inl, Bool, true, false,
  not, some, none, refl, arith, ◌==◌, if◌then◌else◌, ap, ◌∙◌,
}
use good_osd_project.CommonLib.{Checks, PageMath, BitmapOps, page_size}
use good_osd_project.Kernel.{Outcome, done, Returns, Returns->>=, null, Status, success, qword}
use good_osd_project.Paging.Entries.{PteOps}
use good_osd_project.Paging.{Tables, MapContext, PatIndices, pages}
use good_osd_project.Paging.Tree.{Tree}
use good_osd_project.Paging.Retrieve.{address_of}
use good_osd_project.Paging.Range.{MapsRange}
use good_osd_project.Paging.Translate.{
  Translates, Agree, IsPage, IsRange, Translates-of, Agree-of, map_memory-MapsRange,
}
use good_osd_project.Pmm.{reserve_memory_ex}
use good_osd_project.Pmm.Frames.{Took, reserve_memory_ex-Reserved, Reserved-Took}
use good_osd_project.Vm.{Space}
use good_osd_project.Vm.Access.{Access, can_address_be_accessed}
use good_osd_project.Vmm.{
  Memory, AddressBits, is_kernel_address, map_memory, page_contents, finish_page, is_success,
  fill_page, solve_page_fault,
}

module _ ⦃P : PteOps⦄ where
  -- The page has a frame of its own that was free, all else is translated as before, and no other
  -- frame is taken.
  pub record Filled (m : Memory) (page : ℕ) (m' : Memory) : Type 0 where
    pub tree : Tree m'.tables
    pub frame : ℕ
    pub took : Took m.physical frame 1 m'.physical
    pub translates : (ca cd : Bool) → Translates m'.tables page ca cd (frame * page_size)
    pub others : (b : ℕ) (ca cd : Bool) → IsPage b → b ≢ page → Agree m.tables m'.tables b ca cd

  -- The page is filled, and the fault refused.
  abbrev pub Leaked : Memory → (page : ℕ) → Bool × Memory → Type 0
  Leaked m page r = (r.0 ≡ false) × Filled m page r.1

module _ ⦃C : Checks⦄ ⦃P : PteOps⦄ ⦃M : PageMath⦄ ⦃B : BitmapOps⦄
    (read : (file bytes offset : ℕ) → Status × ℕ) where
  -- The file behind the page, if there is one, can be read.
  abbrev pub CanRead : Access → Type 0
  CanRead a = ((page_contents read a).0 ≡ success) × ((page_contents read a).1 ≤ page_size)

  -- The page is filled, its bytes behind those that were read are zeroed, and the fault is counted.
  abbrev pub Solved : Memory → (page : ℕ) → Access → (has_cpu : Bool) → Bool × Memory → Type 0
  Solved m page a has_cpu r =
      let n = (page_contents read a).1 in
      (r.0 ≡ true)
      × Filled m page r.1
      × (r.1.page_faults ≡ (if has_cpu then qword (m.page_faults + 1) else m.page_faults))
      × (r.1.cleared
          ≡ (if n == page_size then m.cleared else (page + n, page_size - n) ∷ m.cleared))

module _ ⦃C : Checks⦄ ⦃P : PteOps⦄ ⦃M : PageMath⦄ ⦃B : BitmapOps⦄ (pat : PatIndices)
    (c : MapContext) {s : Tables} (T : Tree s) (size : ℕ)
    (range : IsRange c.virtual_address_base size)
    (aligned : c.physical_address_base % page_size ≡ 0)
    (small : c.physical_address_base + size ≤ 2 ^ 52)
    (room : s.current_index + 3 * pages size ≤ s.number_of_frames)
    (anew : c.invalidate ≡ true) where
  -- `MmuMapMemoryInternal` of a range over whatever was mapped there.
  pub map_memory-MapsRange_anew :
      Returns (MapsRange pat c T c.virtual_address_base (pages size)) (map_memory pat s size c)
  unfolding map_memory
  map_memory-MapsRange_anew =
      let p : not (size == 0) ≡ true = ground arith in
      let q : (size % page_size == 0) ≡ true = ground arith in
      let r : not (c.virtual_address_base == 0) ≡ true = ground arith in
      let t : (c.virtual_address_base % page_size == 0) ≡ true = ground arith in
      rw (p, q, r, t) (map_memory-MapsRange pat c T size range aligned small room (λ a i. inl anew))

module _ ⦃C : Checks⦄ ⦃P : PteOps⦄ ⦃M : PageMath⦄ ⦃B : BitmapOps⦄ (pat : PatIndices)
    (read : (file bytes offset : ℕ) → Status × ℕ) (m : Memory) (T : Tree m.tables) (page : ℕ)
    (valid : IsPage page) (a : Access) (frame : (reserve_memory_ex m.physical 1 0).0 ≢ null)
    (small : m.physical.bit_count * page_size ≤ 2 ^ 52)
    (room : m.tables.current_index + 3 ≤ m.tables.number_of_frames) where
  abbrev pa : ℕ
  pa = (reserve_memory_ex m.physical 1 0).0

  abbrev context : MapContext
  context = record {
    physical_address_base = pa;
    virtual_address_base = page;
    page_rights = a.memory_rights;
    invalidate = true;
    uncacheable = a.uncacheable;
  }

  abbrev reserved :
      (idx : ℕ) × (pa ≡ idx * page_size)
      × Took m.physical idx 1 (reserve_memory_ex m.physical 1 0).1
  reserved = Reserved-Took m.physical _ 1 0 pa (reserve_memory_ex-Reserved m.physical 1 0) frame

  page-IsRange : IsRange page page_size
  page-IsRange = (valid.0, valid.1, omega arith, omega arith, omega arith)

  pa_aligned : pa % page_size ≡ 0
  pa_aligned = omega (arith, reserved.1)

  pa_small : pa + page_size ≤ 2 ^ 52
  pa_small = omega (arith, reserved.1, reserved.2.inside)

  mapped : Returns (MapsRange pat context T page 1) (map_memory pat m.tables page_size context)
  mapped =
      map_memory-MapsRange_anew pat context T page_size page-IsRange pa_aligned pa_small room refl

  MapsRange-Filled :
      {t : Tables} (faults : ℕ) (cleared : List (ℕ × ℕ))
      → MapsRange pat context T page 1 t
      → Filled m page (record {
        tables = t;
        kernel_tables = m.kernel_tables;
        physical = (reserve_memory_ex m.physical 1 0).1;
        page_faults = faults;
        cleared = cleared;
      })
  MapsRange-Filled faults cleared R = record {
    tree = R.tree;
    frame = reserved.0;
    took = reserved.2;
    translates = λ ca cd.
        let (old, e) = R.inside page (valid.0, omega arith, omega arith) in
        Translates-of R.tree page ca cd _ valid (
          ap address_of e
          ∙ P.map_physical_address _ _ _ (omega (arith, pa_aligned)) (omega (arith, pa_small))
          ∙ omega (arith, reserved.1));
    others = λ b ca cd p n.
        Agree-of T R.tree b ca cd p (R.outside b p.0 p.2 (λ i. n (omega (arith, valid.0))));
  }

  abbrev mapped_memory : Tables → Memory
  mapped_memory t = record m { tables = t; physical = (reserve_memory_ex m.physical 1 0).1 }

  fill_page-Returns :
      (Q : Bool × Memory → Type 0) (has_cpu : Bool)
      → ((t : Tables)
          → MapsRange pat context T page 1 t
          → Returns Q (finish_page read (mapped_memory t) has_cpu page (page_contents read a)))
      → Returns Q (fill_page pat read m has_cpu page a)
  unfolding fill_page
  fill_page-Returns Q has_cpu f =
      let p : not (pa == 0) ≡ true = ground arith in
      rw p (Returns->>= Q (map_memory pat m.tables page_size context) _ mapped f)

  pub fill_page-Solved :
      (has_cpu : Bool)
      → CanRead read a
      → Returns (Solved read m page a has_cpu) (fill_page pat read m has_cpu page a)
  unfolding finish_page
  fill_page-Solved has_cpu h =
      let p : leb (page_contents read a).1 page_size ≡ true = ground arith in
      fill_page-Returns (Solved read m page a has_cpu) has_cpu
        (λ t R. rw (h.0, p) (refl, MapsRange-Filled _ _ R, refl, refl))

  pub fill_page-Leaked :
      (has_cpu : Bool)
      → is_success (page_contents read a).0 ≡ false
      → Returns (Leaked m page) (fill_page pat read m has_cpu page a)
  unfolding finish_page
  fill_page-Leaked has_cpu h =
      fill_page-Returns (Leaked m page) has_cpu (λ t R. rw h (refl, MapsRange-Filled _ _ R))

module _ ⦃C : Checks⦄ ⦃P : PteOps⦄ ⦃M : PageMath⦄ ⦃B : BitmapOps⦄ ⦃A : AddressBits⦄
    (pat : PatIndices) (read : (file bytes offset : ℕ) → Status × ℕ) (system process : Space)
    (m : Memory) (known : Bool) (address rights : ℕ) where
  -- The answer of the reservations to the access.
  abbrev pub answer : Outcome (Option Access)
  answer =
      can_address_be_accessed (if is_kernel_address address then system else process) known address
        rights

  allowed :
      (has_cpu : Bool) (a : Access)
      → is_kernel_address address ≡ m.tables.kernel_space
      → M.align_lower address ≢ null
      → answer ≡ done (some a)
      → solve_page_fault pat read system process m has_cpu known address rights
        ≡ fill_page pat read m has_cpu (M.align_lower address) a
  unfolding solve_page_fault
  allowed has_cpu a side real found = ground arith

  -- A fault on the null page, on an address of the other half of the address space than the paging
  -- tables, or for an access that the reservations do not allow, is refused: the call returns false,
  -- and changes nothing.
  pub solve_page_fault-refused :
      (has_cpu : Bool)
      → (M.align_lower address ≡ null)
        ⊎ (is_kernel_address address ≢ m.tables.kernel_space)
        ⊎ (answer ≡ done none)
      → solve_page_fault pat read system process m has_cpu known address rights ≡ done (false, m)
  unfolding solve_page_fault
  solve_page_fault-refused has_cpu h = ground arith

  module _ (T : Tree m.tables) (a : Access) (valid : IsPage (M.align_lower address))
      (side : is_kernel_address address ≡ m.tables.kernel_space) (found : answer ≡ done (some a))
      (frame : (reserve_memory_ex m.physical 1 0).0 ≢ null)
      (small : m.physical.bit_count * page_size ≤ 2 ^ 52)
      (room : m.tables.current_index + 3 ≤ m.tables.number_of_frames) where
    -- A fault on a canonical address, not of the null page, in the half of the address space that the
    -- paging tables are for, for an access that the reservations allow. Where the tables are a tree
    -- with three frames left for tables, a frame is free, the frames end below 2^52, and the page of
    -- the file behind the address, if there is one, can be read: the call returns true, with the fault
    -- counted. A frame that was free, and no other, is taken, the tables translate the page of the
    -- address to it and each other page as before, and what the file does not fill of the page is
    -- zeroed.
    pub solve_page_fault-Solved :
        (has_cpu : Bool)
        → CanRead read a
        → Returns
            (Solved read m (M.align_lower address) a has_cpu)
            (solve_page_fault pat read system process m has_cpu known address rights)
    solve_page_fault-Solved has_cpu h =
        rw (allowed has_cpu a side valid.1 found)
          (fill_page-Solved pat read m T (M.align_lower address) valid a frame small room has_cpu h)

    -- A fault on a canonical address, not of the null page, in the half of the address space that the
    -- paging tables are for, for an access that the reservations allow. Where the tables are a tree
    -- with three frames left for tables, a frame is free, the frames end below 2^52, and the read of
    -- the file behind the address fails: the call returns false, and yet a frame that was free, and no
    -- other, has been taken, and the tables translate the page of the address to it, and each other
    -- page as before.
    pub solve_page_fault-Leaked :
        (has_cpu : Bool)
        → is_success (page_contents read a).0 ≡ false
        → Returns
            (Leaked m (M.align_lower address))
            (solve_page_fault pat read system process m has_cpu known address rights)
    solve_page_fault-Leaked has_cpu h =
        rw (allowed has_cpu a side valid.1 found)
          (fill_page-Leaked pat read m T (M.align_lower address) valid a frame small room has_cpu h)
