-- ===== src/Paging/Range.antt =====
-- The walk of src/HAL9000/src/vmm.c with `_VmMapPage` over a range of pages.
use good_osd_project.Prelude.{
  ℕ, zero, suc, ◌+◌, ◌-◌, ◌*◌, ◌%◌, ◌≡◌, ◌≢◌, ◌≤◌, Bool, true, sym, ◌∙◌, none, some, refl, arith,
  eq_cases, inl, inr, ap, ◌⊎◌,
}
use good_osd_project.CommonLib.{Checks, page_size}
use good_osd_project.Kernel.{Returns, Returns-map, Returns->>=}
use good_osd_project.Paging.Entries.{PteOps}
use good_osd_project.Paging.{Tables, MapContext, PatIndices, map_page, walk_pages, page_flags}
use good_osd_project.Paging.Tree.{Tree, resolve}
use good_osd_project.Paging.Map.{IsMapped}
use good_osd_project.Paging.Pages.{
  IsCanonical, InSpace, entry_of, InRange, root_lem, offsets_ne, map_offsets,
}

module _ ⦃P : PteOps⦄ ⦃C : Checks⦄ (pat : PatIndices) (c : MapContext) where
  -- The entry that maps the page at `a`, over what was there.
  abbrev pub entry_for : (kernel : Bool) (old a : ℕ) → ℕ
  entry_for kernel old a =
      P.pte_map old (c.physical_address_base + (a - c.virtual_address_base))
        (page_flags pat kernel c)

  pub record MapsRange {s : Tables} (T : Tree s) (va n : ℕ) (s' : Tables) : Type 0 where
    pub tree : Tree s'
    pub base : s'.base_physical_address ≡ s.base_physical_address
    pub frames : s'.number_of_frames ≡ s.number_of_frames
    pub kernel : s'.kernel_space ≡ s.kernel_space
    pub kept_frames : s'.released ≡ s.released
    pub used : s'.current_index ≤ s.current_index + 3 * n
    pub inside :
        (a : ℕ)
        → InRange va n a
        → (old : ℕ) × (entry_of s' a ≡ some (entry_for s.kernel_space old a))
    pub outside :
        (a : ℕ)
        → a % page_size ≡ 0
        → IsCanonical a
        → ¬ InRange va n a
        → entry_of s' a ≡ entry_of s a

  abbrev pub IsFree : Tables → ℕ → Type 0
  IsFree s a = (c.invalidate ≡ true) ⊎ (entry_of s a ≡ none)

  module _ {s : Tables} (T : Tree s) (va : ℕ) (valid : va ≢ 0) (r : Tables × Unit {0})
      (M : IsMapped pat c va valid T s.base_physical_address (P.offsets va) 3 r) where
    page_mapped : (old : ℕ) × (entry_of r.0 va ≡ some (entry_for s.kernel_space old va))
    page_mapped = (M.2.0, ap (λ (b : ℕ). resolve r.0.entries (P.offsets va) b 0) M.0.base ∙ M.2.1)

    page_other :
        (a : ℕ)
        → a % page_size ≡ 0
        → IsCanonical a
        → va % page_size ≡ 0
        → IsCanonical va
        → a ≢ va
        → entry_of r.0 a ≡ entry_of s a
    page_other a p h q k n =
        ap (λ (b : ℕ). resolve r.0.entries (P.offsets a) b 0) M.0.base
        ∙ M.0.edits.others s.base_physical_address (P.offsets a) 0 refl
            (P.offsets_length a ∙ sym (P.offsets_length va)) (λ e. offsets_ne a va p q h k n e.1)

    still-IsFree :
        (a : ℕ)
        → a % page_size ≡ 0
        → IsCanonical a
        → va % page_size ≡ 0
        → IsCanonical va
        → a ≢ va
        → IsFree s a
        → IsFree r.0 a
    still-IsFree a p h q k n (inl f) = inl f
    still-IsFree a p h q k n (inr f) = inr (page_other a p h q k n ∙ f)

    page_then_range :
        (n : ℕ) (s' : Tables)
        → va % page_size ≡ 0
        → InSpace va (suc n * page_size)
        → MapsRange M.0.tree (va + page_size) n s'
        → MapsRange T va (suc n) s'
    page_then_range n s' p h R = record {
      tree = R.tree;
      base = R.base ∙ M.0.base;
      frames = R.frames ∙ M.0.frames;
      kernel = R.kernel ∙ M.0.kernel;
      kept_frames = R.kept_frames ∙ M.1;
      used = omega (arith, R.used, M.0.used);
      inside = λ a i. elim (eq_cases a va) [
        | inl e ↦ rw e (
          page_mapped.0,
          R.outside va p (omega arith) (λ j. absurd (omega arith)) ∙ page_mapped.1,
        )
        | inr m ↦
            let (old, e) = R.inside a (omega arith) in
            (old, e ∙ ap (λ (b : Bool). some (entry_for b old a)) M.0.kernel)
      ];
      outside = λ a q l d.
          R.outside a q l (λ j. d (omega arith))
          ∙ page_other a q l p (omega arith) (λ e. d (omega arith));
    }

  -- Mapping a range of pages that are free returns, and maps these and no other.
  pub map_range :
      (n va cr3 : ℕ) {s : Tables} (T : Tree s)
      → cr3 ≡ s.base_physical_address
      → va ≢ 0
      → va % page_size ≡ 0
      → InSpace va (n * page_size)
      → s.current_index + 3 * n ≤ s.number_of_frames
      → ((a : ℕ) → InRange va n a → IsFree s a)
      → Returns
          (λ (r : Tables × Unit {0}). MapsRange T va n r.0)
          (walk_pages (map_page pat c) cr3 va n s tt)
  unfolding walk_pages
  map_range zero va cr3 {s} T e valid p h room free = record {
    tree = T;
    base = refl;
    frames = refl;
    kernel = refl;
    kept_frames = refl;
    used = omega arith;
    inside = λ a i. absurd (omega arith);
    outside = λ a q l d. refl;
  }
  map_range (suc n) va cr3 {s} T e valid p h room free =
      let first =
        map_offsets pat c T va valid (P.offsets va) (P.offsets_length va) (omega arith)
          (free va (omega arith)) in
      rw (e, root_lem T)
        (Returns->>= (λ (r : Tables × Unit {0}). MapsRange T va (suc n) r.0) _ _ first
          (λ r M.
            Returns-map {P = λ (q : Tables × Unit {0}). MapsRange M.0.tree (va + page_size) n q.0} _
              (λ (q : Tables × Unit {0}) R. page_then_range T va valid r M n q.0 p h R)
              (map_range n (va + page_size) cr3 {s = r.0} M.0.tree (e ∙ sym M.0.base)
                (λ z. absurd (omega arith)) (omega arith) (omega arith)
                (omega (arith, M.0.used, M.0.frames))
                (λ a i.
                  still-IsFree T va valid r M a i.0 (omega arith) p (omega arith)
                    (λ z. absurd (omega arith)) (free a (omega arith))))))
