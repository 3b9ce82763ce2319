-- ===== src/Paging/Edit.antt =====
-- Edits of the tables of src/HAL9000/src/vmm.c: the write of a last-level entry, a new table, and how
-- an edit below an entry is one of the path through it.
use good_osd_project.Prelude.{
  ℕ, suc, ◌≡◌, ◌<◌, true, List, [], ◌∷◌, length, refl, arith, eq_cases, inl, inr, Bool-cases, ap,
  sym, ◌∙◌,
}
use good_osd_project.Paging.Entries.{PteOps}
use good_osd_project.Paging.{Tables, write_entry}
use good_osd_project.Paging.Tree.{Tree, Edits, resolve}

pub write_entry_self : (f : ℕ → ℕ → ℕ) (t i e : ℕ) → write_entry f t i e t i ≡ e
write_entry_self f t i e = ground arith

pub write_entry_other :
    (f : ℕ → ℕ → ℕ) (t i e u j : ℕ) → ¬ ((u ≡ t) × (j ≡ i)) → write_entry f t i e u j ≡ f u j
write_entry_other f t i e u j h = elim (eq_cases t u) [
  | inr n ↦ ground arith
  | inl p ↦ elim (eq_cases i j) [
    | inr n ↦ rw (← p) (ground arith)
    | inl q ↦ absurd (h (omega arith, omega arith))
  ]
]

ap2_cons : {x y : ℕ} {xs ys : List ℕ} → x ≡ y → xs ≡ ys → x ∷ xs ≡ y ∷ ys
ap2_cons p q = cc

module _ ⦃P : PteOps⦄ {s : Tables} (T : Tree s) where
  -- The tables after a write of the last-level entry `i` of `t`.
  abbrev pub with_leaf : (t i e : ℕ) → List ℕ → Tables
  with_leaf t i e freed = record s { entries = write_entry s.entries t i e; released = freed }

  pub with_leaf-Tree : (t i e : ℕ) (freed : List ℕ) → T.level t ≡ 4 → Tree (with_leaf t i e freed)
  with_leaf-Tree t i e freed last =
      let same = λ (u j : ℕ) (h : T.level u < 4).
        write_entry_other s.entries t i e u j (λ p. absurd (omega (arith, ap T.level p.0))) in
      record {
        level = T.level;
        parent = T.parent;
        slot = T.slot;
        root = T.root;
        fresh = T.fresh;
        child_level =
            λ u j pos h p. rw (same u j h) (T.child_level u j pos h (rw (← same u j h) p));
        child_parent =
            λ u j pos h p. rw (same u j h) (T.child_parent u j pos h (rw (← same u j h) p));
        child_slot = λ u j pos h p. rw (same u j h) (T.child_slot u j pos h (rw (← same u j h) p));
        child_small =
            λ u j pos h p. rw (same u j h) (T.child_small u j pos h (rw (← same u j h) p));
        base_aligned = T.base_aligned;
        base_small = T.base_small;
        few_frames = T.few_frames;
      }

  leaf_others :
      (t i e : ℕ)
      → T.level t ≡ 4
      → (u : ℕ) (js : List ℕ) (a : ℕ) → T.level u ≡ T.level t
      → length js ≡ 1
      → ¬ ((u ≡ t) × (js ≡ i ∷ []))
      → resolve (write_entry s.entries t i e) js u a ≡ resolve s.entries js u a
  unfolding resolve
  leaf_others t i e last u [] a h n d = absurd (omega arith)
  leaf_others t i e last u (j ∷ k ∷ js) a h n d = absurd (omega arith)
  leaf_others t i e last u (j ∷ []) a h n d =
      rw (write_entry_other s.entries t i e u j (λ p. d (p.0, ap (λ (x : ℕ). x ∷ []) p.1))) refl

  pub with_leaf-Edits :
      (t i e : ℕ) (freed : List ℕ) (last : T.level t ≡ 4)
      → Edits T (with_leaf-Tree t i e freed last) t (i ∷ [])
  unfolding resolve with_leaf-Tree
  with_leaf-Edits t i e freed last = record {
    kept = λ u pos. refl;
    above = λ u j pos h.
        write_entry_other s.entries t i e u j (λ p. absurd (omega (arith, ap T.level p.0)));
    others = leaf_others t i e last;
  }

-- The edit of a path below a present entry is one of the path through the entry.
module _ ⦃P : PteOps⦄ {s s' : Tables} (T : Tree s) (T' : Tree s') (t i : ℕ) (is : List ℕ)
    (pos : 0 < T.level t) (high : T.level t < 4) (present : P.pte_is_present (s.entries t i) ≡ true)
    (E : Edits T T' (P.pte_physical_address (s.entries t i)) is) where
  pub descend_same : (u j : ℕ) → T.level u ≡ T.level t → s'.entries u j ≡ s.entries u j
  descend_same u j h = E.above u j (omega arith) (omega (arith, T.child_level t i pos high present))

  descend_others :
      (u : ℕ) (js : List ℕ) (e : ℕ)
      → T.level u ≡ T.level t
      → length js ≡ suc (length is)
      → ¬ ((u ≡ t) × (js ≡ i ∷ is))
      → resolve s'.entries js u e ≡ resolve s.entries js u e
  unfolding resolve
  descend_others u [] e h n d = absurd (omega arith)
  descend_others u (j ∷ js) e h n d = elim (Bool-cases (P.pte_is_present (s.entries u j))) [
    | inr absent ↦ rw (descend_same u j h, absent) refl
    | inl there ↦
        let deeper = T.child_level u j (omega arith) (omega arith) there in
        let deeper_t = T.child_level t i pos high present in
        rw (descend_same u j h, there)
          (E.others _ js _ (omega arith) (omega arith) (λ p. d (
            sym (T.child_parent u j (omega arith) (omega arith) there)
                ∙ ap T.parent p.0
                ∙ T.child_parent t i pos high present,
            ap2_cons
                (sym (T.child_slot u j (omega arith) (omega arith) there)
                  ∙ ap T.slot p.0
                  ∙ T.child_slot t i pos high present)
                p.1,
          )))
  ]

  pub descend-Edits : Edits T T' t (i ∷ is)
  descend-Edits = record {
    kept = E.kept;
    above = λ u j p h. E.above u j p (omega (arith, T.child_level t i pos high present));
    others = descend_others;
  }
