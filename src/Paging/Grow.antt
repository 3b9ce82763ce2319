-- ===== src/Paging/Grow.antt =====
-- `_VmSetupPagingStructure` of src/HAL9000/src/vmm.c on a tree: the new table belongs to the entry
-- that was absent, and every path keeps its translation.
use good_osd_project.Prelude.{
  ℕ, zero, ◌+◌, ◌*◌, ◌≡◌, ◌≢◌, ◌<◌, true, false, List, [], ◌∷◌, sym, ◌∙◌, none, length, refl, arith,
  update, eq_cases, inl, inr, Bool-cases, ap,
}
use good_osd_project.CommonLib.{page_size}
use good_osd_project.Paging.Entries.{PteOps}
use good_osd_project.Paging.{Tables, write_entry, next_frame, with_structure, structure_flags}
use good_osd_project.Paging.Tree.{Tree, resolve, resolve_deeper}
use good_osd_project.Paging.Edit.{write_entry_other, write_entry_self}

pub update_other {ℓ} :
    {A : Type ℓ} (f : ℕ → A) (k : ℕ) (v : A) (j : ℕ) → j ≢ k → update f k v j ≡ f j
update_other f k v j h = ground arith

pub update_self {ℓ} : {A : Type ℓ} (f : ℕ → A) (k : ℕ) (v : A) → update f k v k ≡ v
update_self f k v = ground arith

pub clash {ℓ} : {A : Type ℓ} → true ≡ false → A
clash h = cc

module _ ⦃P : PteOps⦄ {s : Tables} (T : Tree s) (t i : ℕ) (pos : 0 < T.level t)
    (high : T.level t < 4) (absent : P.pte_is_present (s.entries t i) ≡ false)
    (room : s.current_index < s.number_of_frames) where
  abbrev new_frame : ℕ
  new_frame = s.base_physical_address + s.current_index * page_size

  abbrev new_entry : ℕ
  new_entry = P.pte_map (s.entries t i) (next_frame s) (structure_flags s.kernel_space)

  abbrev written : ℕ → ℕ → ℕ
  written = write_entry s.entries t i new_entry

  next_frame_lem : next_frame s ≡ new_frame
  next_frame_lem = omega (arith, T.few_frames)

  new_frame_fresh : T.level new_frame ≡ 0
  new_frame_fresh = T.fresh s.current_index (omega arith)

  new_entry_address : P.pte_physical_address new_entry ≡ new_frame
  new_entry_address =
      P.map_physical_address _ _ _ (omega (arith, T.base_aligned, T.few_frames))
        (omega (arith, T.base_small, T.few_frames))
      ∙ next_frame_lem

  abbrev grown : ℕ → ℕ → ℕ
  grown = (with_structure s t i).entries

  ne_new : (u : ℕ) → 0 < T.level u → u ≢ new_frame
  ne_new u h e = absurd (omega (arith, ap T.level e, new_frame_fresh))

  grown_other : (u j : ℕ) → u ≢ new_frame → ¬ ((u ≡ t) × (j ≡ i)) → grown u j ≡ s.entries u j
  grown_other u j h n =
      ap (λ (f : ℕ → ℕ). f j)
        (update_other written (next_frame s) (λ k. 0) u (λ e. h (e ∙ next_frame_lem)))
      ∙ write_entry_other s.entries t i new_entry u j n

  pub grown_self : grown t i ≡ new_entry
  grown_self =
      ap (λ (f : ℕ → ℕ). f i)
        (update_other written (next_frame s) (λ k. 0) t (λ e. ne_new t pos (e ∙ next_frame_lem)))
      ∙ write_entry_self s.entries t i new_entry

  grown_new : (u j : ℕ) → u ≡ new_frame → grown u j ≡ 0
  grown_new u j e =
      rw (e ∙ sym next_frame_lem)
        (ap (λ (f : ℕ → ℕ). f j) (update_self written (next_frame s) (λ (k : ℕ). zero)))

  abbrev level' : ℕ → ℕ
  level' = update T.level new_frame (T.level t + 1)

  abbrev parent' : ℕ → ℕ
  parent' = update T.parent new_frame t

  abbrev slot' : ℕ → ℕ
  slot' = update T.slot new_frame i

  level_old : (u : ℕ) → 0 < T.level u → level' u ≡ T.level u
  level_old u h = update_other T.level new_frame _ u (ne_new u h)

  abbrev IsChild : (u j a : ℕ) → Type 0
  IsChild u j e =
      (level' (P.pte_physical_address e) ≡ level' u + 1)
      × (parent' (P.pte_physical_address e) ≡ u)
      × (slot' (P.pte_physical_address e) ≡ j)
      × (P.page_size_bit e ≡ false)

  new_IsChild : IsChild t i new_entry
  new_IsChild = rw new_entry_address (
    update_self T.level new_frame _ ∙ ap (λ (x : ℕ). x + 1) (sym (level_old t pos)),
    update_self T.parent new_frame t,
    update_self T.slot new_frame i,
    P.map_small _ _ _ absent,
  )

  old_IsChild :
      (u j : ℕ)
      → 0 < T.level u
      → T.level u < 4
      → P.pte_is_present (s.entries u j) ≡ true
      → IsChild u j (s.entries u j)
  old_IsChild u j p h there =
      let deeper = T.child_level u j p h there in
      let n = ne_new (P.pte_physical_address (s.entries u j)) (omega arith) in
      (
        update_other T.level new_frame _ _ n ∙ deeper ∙ ap (λ (x : ℕ). x + 1) (sym (level_old u p)),
        update_other T.parent new_frame t _ n ∙ T.child_parent u j p h there,
        update_other T.slot new_frame i _ n ∙ T.child_slot u j p h there,
        T.child_small u j p h there,
      )

  old_case :
      (u j : ℕ)
      → u ≢ new_frame
      → ¬ ((u ≡ t) × (j ≡ i))
      → 0 < T.level u
      → T.level u < 4
      → P.pte_is_present (grown u j) ≡ true
      → IsChild u j (grown u j)
  old_case u j n m p h there =
      let e = grown_other u j n m in
      rw e (old_IsChild u j p h (ap P.pte_is_present (sym e) ∙ there))

  grown-IsChild :
      (u j : ℕ)
      → 0 < level' u
      → level' u < 4
      → P.pte_is_present (grown u j) ≡ true
      → IsChild u j (grown u j)
  grown-IsChild u j p h there = elim (eq_cases u new_frame) [
    | inl e ↦ clash (sym there ∙ ap P.pte_is_present (grown_new u j e) ∙ P.zero_absent)
    | inr n ↦
        let same = update_other T.level new_frame (T.level t + 1) u n in
        elim (eq_cases u t) [
          | inl a ↦ elim (eq_cases j i) [
            | inl b ↦ rw (a, b, grown_self) new_IsChild
            | inr m ↦ old_case u j n (λ q. m q.1) (omega arith) (omega arith) there
          ]
          | inr m ↦ old_case u j n (λ q. m q.0) (omega arith) (omega arith) there
        ]
  ]

  pub grown-Tree : Tree (with_structure s t i)
  grown-Tree = record {
    level = level';
    parent = parent';
    slot = slot';
    root = level_old s.base_physical_address (omega (arith, T.root)) ∙ T.root;
    fresh = λ n h.
        update_other T.level new_frame _ (s.base_physical_address + n * page_size)
          (λ e. absurd (omega arith))
        ∙ T.fresh n (omega arith);
    child_level = λ u j p h there. (grown-IsChild u j p h there).0;
    child_parent = λ u j p h there. (grown-IsChild u j p h there).1;
    child_slot = λ u j p h there. (grown-IsChild u j p h there).2;
    child_small = λ u j p h there. (grown-IsChild u j p h there).3;
    base_aligned = T.base_aligned;
    base_small = T.base_small;
    few_frames = T.few_frames;
  }

  pub grown_level : (u : ℕ) → 0 < T.level u → grown-Tree.level u ≡ T.level u
  unfolding grown-Tree
  grown_level u h = level_old u h

  pub grown_above : (u j : ℕ) → 0 < T.level u → T.level u < T.level t → grown u j ≡ s.entries u j
  grown_above u j p h = grown_other u j (ne_new u p) (λ q. absurd (omega (arith, ap T.level q.0)))

  pub grown_present : P.pte_is_present (grown t i) ≡ true
  grown_present = ap P.pte_is_present grown_self ∙ P.map_present _ _ _

  pub grown_child : grown-Tree.level (P.pte_physical_address (grown t i)) ≡ T.level t + 1
  unfolding grown-Tree
  grown_child = rw (grown_self, new_entry_address) (update_self T.level new_frame (T.level t + 1))

  pub grown_empty : (k : ℕ) → grown (P.pte_physical_address (grown t i)) k ≡ 0
  grown_empty k = grown_new _ k (ap P.pte_physical_address grown_self ∙ new_entry_address)

  -- The new table is empty, so the path through it still leads nowhere.
  resolve_start : (k : ℕ) (js : List ℕ) (e : ℕ) → resolve grown (i ∷ k ∷ js) t e ≡ none
  unfolding resolve
  resolve_start k js e =
      let empty = grown_new new_frame k refl in
      rw (grown_self, P.map_present _ _ _, new_entry_address, empty, P.zero_absent) refl

  resolve_absent : (k : ℕ) (js : List ℕ) (e : ℕ) → resolve s.entries (i ∷ k ∷ js) t e ≡ none
  unfolding resolve
  resolve_absent k js e = rw absent refl

  resolve_path :
      (u j k : ℕ) (js : List ℕ) (e : ℕ)
      → T.level u ≡ T.level t
      → length js + 2 + T.level t ≡ 5
      → ¬ ((u ≡ t) × (j ≡ i))
      → resolve grown (j ∷ k ∷ js) u e ≡ resolve s.entries (j ∷ k ∷ js) u e
  unfolding resolve
  resolve_path u j k js e l n d = elim (Bool-cases (P.pte_is_present (s.entries u j))) [
    | inr gone ↦ rw (grown_other u j (ne_new u (omega arith)) d, gone) refl
    | inl there ↦
        let deeper = T.child_level u j (omega arith) (omega arith) there in
        rw (grown_other u j (ne_new u (omega arith)) d, there)
          (resolve_deeper T grown (k ∷ js) (P.pte_physical_address (s.entries u j)) (s.entries u j)
            (omega arith) (omega arith)
            (λ v m le.
              grown_other v m (ne_new v (omega arith))
                (λ q. absurd (omega (arith, ap T.level q.0)))))
  ]

  pub grown-resolve :
      (u : ℕ) (js : List ℕ) (e : ℕ)
      → T.level u ≡ T.level t
      → length js + T.level t ≡ 5
      → resolve grown js u e ≡ resolve s.entries js u e
  grown-resolve u [] e l n = absurd (omega arith)
  grown-resolve u (j ∷ []) e l n = absurd (omega arith)
  grown-resolve u (j ∷ k ∷ js) e l n = elim (eq_cases u t) [
    | inr m ↦ resolve_path u j k js e l (omega arith) (λ q. m q.0)
    | inl a ↦ elim (eq_cases j i) [
      | inr m ↦ resolve_path u j k js e l (omega arith) (λ q. m q.1)
      | inl b ↦ rw (a, b) (resolve_start k js e ∙ sym (resolve_absent k js e))
    ]
  ]
