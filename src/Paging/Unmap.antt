-- ===== src/Paging/Unmap.antt =====
-- `_VmUnmapPage` under the walk of src/HAL9000/src/vmm.c: the path of the page ends, and no other
-- path changes.
use good_osd_project.Prelude.{
  ℕ, suc, ◌+◌, ◌≡◌, ◌≢◌, ◌<◌, Bool, true, false, List, [], ◌∷◌, Option, none, some, length, refl,
  arith, inl, inr, Bool-cases, if◌then◌else◌, ◌∙◌, ◌∙◌,
}
use good_osd_project.Kernel.{done, Returns, Returns-map}
use good_osd_project.Paging.Entries.{PteOps}
use good_osd_project.Paging.{Tables, write_entry, unmap_page, walk}
use good_osd_project.Paging.Tree.{Tree, Edits, resolve}
use good_osd_project.Paging.Edit.{write_entry_self, with_leaf-Tree, with_leaf-Edits, descend-Edits}
use good_osd_project.Paging.Map.{walk_step, walk_stop, Walked}

module _ ⦃P : PteOps⦄ where
  -- The frames that were given back, once the page behind an entry is unmapped.
  abbrev pub freed_by : (release : Bool) → Option ℕ → List ℕ → List ℕ
  freed_by release none l = l
  freed_by release (some e) l = if release then P.pte_physical_address e ∷ l else l

module _ ⦃P : PteOps⦄ (release : Bool) (va : ℕ) (valid : va ≢ 0) where
  abbrev pub IsUnmapped : {s : Tables} → Tree s → (t : ℕ) → List ℕ → Tables × Unit {0} → Type 0
  IsUnmapped {s} T t is (s', k) =
      Walked T t is 0 s'
      × (resolve s'.entries is t 0 ≡ none)
      × (s'.released ≡ freed_by release (resolve s.entries is t 0) s.released)

  unmap_absent :
      (l t i : ℕ) (s : Tables) (k : Unit {0})
      → P.pte_is_present (s.entries t i) ≡ false
      → unmap_page release va l t i s k ≡ done (false, s, k)
  unfolding unmap_page
  unmap_absent l t i s k p = ground arith

  unmap_table :
      (l t i : ℕ) (s : Tables) (k : Unit {0})
      → l < 4
      → P.pte_is_present (s.entries t i) ≡ true
      → unmap_page release va l t i s k ≡ done (true, s, k)
  unfolding unmap_page
  unmap_table l t i s k h p = ground arith

  abbrev unmapped : (s : Tables) → (t i : ℕ) → Tables
  unmapped s t i = record s {
    entries = write_entry s.entries t i (P.pte_unmap (s.entries t i));
    released = freed_by release (some (s.entries t i)) s.released;
  }

  unmap_leaf :
      (t i : ℕ) (s : Tables) (k : Unit {0})
      → P.pte_is_present (s.entries t i) ≡ true
      → unmap_page release va 4 t i s k ≡ done (true, unmapped s t i, k)
  unfolding unmap_page
  unmap_leaf t i s k p = ground arith

  stay-Edits : {s : Tables} (T : Tree s) (t : ℕ) (is : List ℕ) → Edits T T t is
  stay-Edits T t is = record {
    kept = λ u h. refl;
    above = λ u j p h. refl;
    others = λ u js e l n d. refl;
  }

  unmap_stop :
      {s : Tables} (T : Tree s) (t i : ℕ) (is : List ℕ)
      → P.pte_is_present (s.entries t i) ≡ false
      → IsUnmapped T t (i ∷ is) (s, tt)
  unfolding resolve
  unmap_stop T t i is absent = (
    record {
      tree = T;
      edits = stay-Edits T t (i ∷ is);
      base = refl;
      frames = refl;
      kernel = refl;
      used = omega arith;
    },
    rw absent refl,
    rw absent refl,
  )

  unmap_last :
      {s : Tables} (T : Tree s) (t i : ℕ)
      → T.level t ≡ 4
      → P.pte_is_present (s.entries t i) ≡ true
      → IsUnmapped T t (i ∷ []) (unmapped s t i, tt)
  unfolding resolve
  unmap_last {s} T t i last there =
      let e = P.pte_unmap (s.entries t i) in
      let freed = freed_by release (some (s.entries t i)) s.released in
      (
        record {
          tree = with_leaf-Tree T t i e freed last;
          edits = with_leaf-Edits T t i e freed last;
          base = refl;
          frames = refl;
          kernel = refl;
          used = omega arith;
        },
        rw (write_entry_self s.entries t i e, P.unmap_absent) refl,
        rw there refl,
      )

  descend-IsUnmapped :
      {s : Tables} (T : Tree s) (t i j : ℕ) (is : List ℕ) (r : Tables × Unit {0})
      → 0 < T.level t
      → T.level t < 4
      → P.pte_is_present (s.entries t i) ≡ true
      → IsUnmapped T (P.pte_physical_address (s.entries t i)) (j ∷ is) r
      → IsUnmapped T t (i ∷ j ∷ is) r
  unfolding resolve
  descend-IsUnmapped {s} T t i j is (s', k) pos high there (W, gone, freed) =
      let deeper = T.child_level t i pos high there in
      let same = W.edits.above t i pos (omega arith) in
      (
        record {
          tree = W.tree;
          edits = descend-Edits T W.tree t i (j ∷ is) pos high there W.edits;
          base = W.base;
          frames = W.frames;
          kernel = W.kernel;
          used = W.used;
        },
        rw (same, there) gone,
        rw there freed,
      )

  unmap_gone :
      (is : List ℕ) (i : ℕ) {s : Tables} (T : Tree s) (l t : ℕ)
      → P.pte_is_present (s.entries t i) ≡ false
      → Returns (IsUnmapped T t (i ∷ is)) (walk (unmap_page release va) (i ∷ is) l t s tt)
  unmap_gone is i {s} T l t absent =
      rw (walk_stop (unmap_page release va) i is l t s s tt tt (unmap_absent l t i s tt absent))
        (unmap_stop T t i is absent)

  unmap_leaf_walk :
      {s : Tables} (T : Tree s) (t i : ℕ)
      → T.level t ≡ 4
      → P.pte_is_present (s.entries t i) ≡ true
      → Returns (IsUnmapped T t (i ∷ [])) (walk (unmap_page release va) (i ∷ []) 4 t s tt)
  unfolding walk
  unmap_leaf_walk {s} T t i last there =
      rw (unmap_leaf t i s tt there) (unmap_last T t i last there)

  -- The walk of the callback from a table of the tree returns, and unmaps the page.
  pub unmap_walk :
      (is : List ℕ) (i : ℕ) {s : Tables} (T : Tree s) (l t : ℕ)
      → T.level t ≡ l
      → 0 < l
      → length is + l ≡ 4
      → Returns (IsUnmapped T t (i ∷ is)) (walk (unmap_page release va) (i ∷ is) l t s tt)
  unmap_walk [] i {s} T l t le pos len = elim (Bool-cases (P.pte_is_present (s.entries t i))) [
    | inr absent ↦ unmap_gone [] i T l t absent
    | inl there ↦
        let last : l ≡ 4 = omega arith in rw last (unmap_leaf_walk T t i (le ∙ last) there)
  ]
  unmap_walk (j ∷ is) i {s} T l t le pos len =
      elim (Bool-cases (P.pte_is_present (s.entries t i))) [
        | inr absent ↦ unmap_gone (j ∷ is) i T l t absent
        | inl there ↦
            rw
              (walk_step (unmap_page release va) i (j ∷ is) l t s s tt tt
                (unmap_table l t i s tt (omega arith) there)
                (inr (T.child_small t i (omega arith) (omega arith) there)))
              (Returns-map _
                (λ r h. descend-IsUnmapped T t i j is r (omega arith) (omega arith) there h)
                (unmap_walk is j T (suc l) (P.pte_physical_address (s.entries t i))
                  (omega (arith, T.child_level t i (omega arith) (omega arith) there)) (omega arith)
                  (omega arith)))
      ]
