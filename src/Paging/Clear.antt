-- ===== src/Paging/Clear.antt =====
-- The walk of src/HAL9000/src/vmm.c with `_VmUnmapPage` over a range of pages.
use good_osd_project.Prelude.{
  ℕ, zero, suc, ◌+◌, ◌*◌, ◌%◌, ◌≡◌, ◌≢◌, Bool, List, [], ◌∷◌, sym, ◌∙◌, Option, none, length, refl,
  arith, eq_cases, inl, inr, ap,
}
use good_osd_project.CommonLib.{page_size}
use good_osd_project.Kernel.{Returns, Returns-map, Returns->>=}
use good_osd_project.Paging.Entries.{PteOps}
use good_osd_project.Paging.{Tables, unmap_page, walk, walk_pages}
use good_osd_project.Paging.Tree.{Tree, resolve}
use good_osd_project.Paging.Unmap.{IsUnmapped, freed_by, unmap_walk}
use good_osd_project.Paging.Pages.{IsCanonical, InSpace, entry_of, InRange, root_lem, offsets_ne}

module _ ⦃P : PteOps⦄ (release : Bool) where
  -- The frames given back, newest first, when the pages of a range with the entries `f` are
  -- unmapped in order.
  abbrev pub freed_range : (f : ℕ → Option ℕ) → (n va : ℕ) → List ℕ → List ℕ
  freed_range f zero va l = l
  freed_range f (suc n) va l = freed_range f n (va + page_size) (freed_by release (f va) l)

  freed_range_congr :
      (f g : ℕ → Option ℕ) (n va : ℕ) (l : List ℕ)
      → va % page_size ≡ 0
      → ((a : ℕ) → InRange va n a → f a ≡ g a)
      → freed_range f n va l ≡ freed_range g n va l
  freed_range_congr f g zero va l p h = refl
  freed_range_congr f g (suc n) va l p h =
      ap (λ (o : Option ℕ). freed_range f n (va + page_size) (freed_by release o l))
        (h va (omega arith))
      ∙ freed_range_congr f g n (va + page_size) (freed_by release (g va) l) (omega arith)
          (λ a i. h a (omega arith))

  pub record UnmapsRange {s : Tables} (T : Tree s) (va n : ℕ) (s' : Tables) : Type 0 where
    pub tree : Tree s'
    pub base : s'.base_physical_address ≡ s.base_physical_address
    pub inside : (a : ℕ) → InRange va n a → entry_of s' a ≡ none
    pub outside :
        (a : ℕ)
        → a % page_size ≡ 0
        → IsCanonical a
        → ¬ InRange va n a
        → entry_of s' a ≡ entry_of s a
    pub freed : s'.released ≡ freed_range (entry_of s) n va s.released

  unmap_offsets :
      {s : Tables} (T : Tree s) (va : ℕ) (valid : va ≢ 0) (offs : List ℕ)
      → length offs ≡ 4
      → Returns
          (IsUnmapped release va valid T s.base_physical_address offs)
          (walk (unmap_page release va) offs 1 s.base_physical_address s tt)
  unmap_offsets T va valid [] len = absurd (omega arith)
  unmap_offsets {s} T va valid (i ∷ is) len =
      unmap_walk release va valid is i T 1 s.base_physical_address T.root (omega arith)
        (omega arith)

  module _ {s : Tables} (T : Tree s) (va : ℕ) (valid : va ≢ 0) (r : Tables × Unit {0})
      (M : IsUnmapped release va valid T s.base_physical_address (P.offsets va) r) where
    page_gone : entry_of r.0 va ≡ none
    page_gone = ap (λ (b : ℕ). resolve r.0.entries (P.offsets va) b 0) M.0.base ∙ M.1

    page_stays :
        (a : ℕ)
        → a % page_size ≡ 0
        → IsCanonical a
        → va % page_size ≡ 0
        → IsCanonical va
        → a ≢ va
        → entry_of r.0 a ≡ entry_of s a
    page_stays a p h q k n =
        ap (λ (b : ℕ). resolve r.0.entries (P.offsets a) b 0) M.0.base
        ∙ M.0.edits.others s.base_physical_address (P.offsets a) 0 refl
            (P.offsets_length a ∙ sym (P.offsets_length va)) (λ e. offsets_ne a va p q h k n e.1)

    gone_then_range :
        (n : ℕ) (s' : Tables)
        → va % page_size ≡ 0
        → InSpace va (suc n * page_size)
        → UnmapsRange M.0.tree (va + page_size) n s'
        → UnmapsRange T va (suc n) s'
    gone_then_range n s' p h R = record {
      tree = R.tree;
      base = R.base ∙ M.0.base;
      inside = λ a i. elim (eq_cases a va) [
        | inl e ↦ rw e (R.outside va p (omega arith) (λ j. absurd (omega arith)) ∙ page_gone)
        | inr m ↦ R.inside a (omega arith)
      ];
      outside = λ a q l d.
          R.outside a q l (λ j. d (omega arith))
          ∙ page_stays a q l p (omega arith) (λ e. d (omega arith));
      freed =
          R.freed
          ∙ ap (λ (l : List ℕ). freed_range (entry_of r.0) n (va + page_size) l) M.2
          ∙ freed_range_congr (entry_of r.0) (entry_of s) n (va + page_size) _ (omega arith)
              (λ a i. page_stays a i.0 (omega arith) p (omega arith) (λ z. absurd (omega arith)));
    }

  -- Unmapping a range of pages returns, unmaps these and no other, and gives back their frames.
  pub unmap_range :
      (n va cr3 : ℕ) {s : Tables} (T : Tree s)
      → cr3 ≡ s.base_physical_address
      → va ≢ 0
      → va % page_size ≡ 0
      → InSpace va (n * page_size)
      → Returns
          (λ (r : Tables × Unit {0}). UnmapsRange T va n r.0)
          (walk_pages (unmap_page release) cr3 va n s tt)
  unfolding walk_pages
  unmap_range zero va cr3 {s} T e valid p h = record {
    tree = T;
    base = refl;
    inside = λ a i. absurd (omega arith);
    outside = λ a q l d. refl;
    freed = refl;
  }
  unmap_range (suc n) va cr3 {s} T e valid p h =
      rw (e, root_lem T)
        (Returns->>= (λ (r : Tables × Unit {0}). UnmapsRange T va (suc n) r.0) _ _
          (unmap_offsets T va valid (P.offsets va) (P.offsets_length va))
          (λ r M.
            Returns-map {P = λ (q : Tables × Unit {0}). UnmapsRange M.0.tree (va + page_size) n q.0}
              _ (λ (q : Tables × Unit {0}) R. gone_then_range T va valid r M n q.0 p h R)
              (unmap_range n (va + page_size) cr3 {s = r.0} M.0.tree (e ∙ sym M.0.base)
                (λ z. absurd (omega arith)) (omega arith) (omega arith))))
