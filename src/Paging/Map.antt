-- ===== src/Paging/Map.antt =====
-- `_VmMapPage` under the walk of src/HAL9000/src/vmm.c: the path of a page that was not mapped leads
-- to the new entry, and no other path changes.
use good_osd_project.Prelude.{
  ℕ, suc, ◌+◌, ◌-◌, ◌≡◌, ◌≢◌, ◌≤◌, ◌<◌, Bool, true, false, List, [], ◌∷◌, sym, ◌∙◌, none, some,
  length, refl, arith, inl, inr, Bool-cases, ◌⊎◌, ◌==◌,
}
use good_osd_project.CommonLib.{Checks}
use good_osd_project.Kernel.{Outcome, done, Returns, Returns-map}
use good_osd_project.Paging.Entries.{PteOps}
use good_osd_project.Paging.{
  Tables, MapContext, PatIndices, write_entry, with_structure, map_page, page_flags, walk,
}
use good_osd_project.Paging.Tree.{Tree, Edits, resolve}
use good_osd_project.Paging.Edit.{write_entry_self, with_leaf-Tree, with_leaf-Edits, descend-Edits}
use good_osd_project.Paging.Grow.{
  grown-resolve, grown-Tree, grown_level, grown_above, grown_present, grown_child, grown_empty,
}

-- A walk that leaves a tree behind, edited along one path, with `n` new tables at most.
pub record Walked ⦃P : PteOps⦄ {s : Tables} (T : Tree s) (t : ℕ) (is : List ℕ) (n : ℕ) (s' : Tables)
    : Type 0 where
  pub tree : Tree s'
  pub edits : Edits T tree t is
  pub base : s'.base_physical_address ≡ s.base_physical_address
  pub frames : s'.number_of_frames ≡ s.number_of_frames
  pub kernel : s'.kernel_space ≡ s.kernel_space
  pub used : s'.current_index ≤ s.current_index + n

module _ {ℓ} ⦃P : PteOps⦄ {K : Type ℓ}
    (call : (level t i : ℕ) → Tables → K → Outcome (Bool × Tables × K)) where
  pub walk_step :
      (i : ℕ) (is : List ℕ) (l t : ℕ) (s s' : Tables) (k k' : K)
      → call l t i s k ≡ done (true, s', k')
      → (l ≡ 4) ⊎ (P.page_size_bit (s'.entries t i) ≡ false)
      → walk call (i ∷ is) l t s k
        ≡ walk call is (suc l) (P.pte_physical_address (s'.entries t i)) s' k'
  unfolding walk
  walk_step i is l t s s' k k' e (inl h) = rw (e, h) refl
  walk_step i is l t s s' k k' e (inr h) = elim (Bool-cases (l == 4)) [
    | inl q ↦ rw (e, q) refl
    | inr q ↦ rw (e, q, h) refl
  ]

  pub walk_stop :
      (i : ℕ) (is : List ℕ) (l t : ℕ) (s s' : Tables) (k k' : K)
      → call l t i s k ≡ done (false, s', k')
      → walk call (i ∷ is) l t s k ≡ done (s', k')
  unfolding walk
  walk_stop i is l t s s' k k' e = rw e refl

module _ ⦃P : PteOps⦄ ⦃C : Checks⦄ (pat : PatIndices) (c : MapContext) (va : ℕ)
    (valid : va ≢ 0) where
  abbrev pub mapped_entry : Tables → (old : ℕ) → ℕ
  mapped_entry s old =
      P.pte_map old (c.physical_address_base + (va - c.virtual_address_base))
        (page_flags pat s.kernel_space c)

  map_page_last :
      (t i : ℕ) (s : Tables) (k : Unit {0})
      → (c.invalidate ≡ true) ⊎ (P.pte_is_present (s.entries t i) ≡ false)
      → map_page pat c va 4 t i s k
        ≡ done (
          true,
          record s { entries = write_entry s.entries t i (mapped_entry s (s.entries t i)) },
          tt,
        )
  unfolding map_page
  map_page_last t i s k (inl h) = ground arith
  map_page_last t i s k (inr h) = ground arith

  map_page_present :
      (l t i : ℕ) (s : Tables) (k : Unit {0})
      → l < 4
      → P.pte_is_present (s.entries t i) ≡ true
      → map_page pat c va l t i s k ≡ done (true, s, tt)
  unfolding map_page
  map_page_present l t i s k h p = ground arith

  map_page_absent :
      (l t i : ℕ) (s : Tables) (k : Unit {0})
      → l < 4
      → P.pte_is_present (s.entries t i) ≡ false
      → s.current_index < s.number_of_frames
      → map_page pat c va l t i s k ≡ done (true, with_structure s t i, tt)
  unfolding map_page
  map_page_absent l t i s k h p room = ground arith

  -- What the walk leaves: the tree edited along the path, which leads to the new entry.
  abbrev pub IsMapped : {s : Tables} → Tree s → (t : ℕ) → List ℕ → ℕ → Tables × Unit {0} → Type 0
  IsMapped {s} T t is n (s', k) =
      Walked T t is n s'
      × (s'.released ≡ s.released)
      × ((old : ℕ) × (resolve s'.entries is t 0 ≡ some (mapped_entry s old)))

  abbrev pub IsOpen : (ℕ → ℕ → ℕ) → List ℕ → ℕ → Type 0
  IsOpen f is t = (c.invalidate ≡ true) ⊎ (resolve f is t 0 ≡ none)

  map_last :
      {s : Tables} (T : Tree s) (t i : ℕ)
      → T.level t ≡ 4
      → IsOpen s.entries (i ∷ []) t
      → Returns (IsMapped T t (i ∷ []) 0) (walk (map_page pat c va) (i ∷ []) 4 t s tt)
  unfolding resolve walk
  map_last {s} T t i last open_ =
      let e = mapped_entry s (s.entries t i) in
      let free : (c.invalidate ≡ true) ⊎ (P.pte_is_present (s.entries t i) ≡ false) =
        ground arith in
      rw (map_page_last t i s tt free) (
        record {
          tree = with_leaf-Tree T t i e s.released last;
          edits = with_leaf-Edits T t i e s.released last;
          base = refl;
          frames = refl;
          kernel = refl;
          used = omega arith;
        },
        refl,
        (s.entries t i, rw (write_entry_self s.entries t i e, P.map_present) refl),
      )

  -- A walk that goes on through a present entry is one of the whole path.
  descend-IsMapped :
      {s : Tables} (T : Tree s) (t i j : ℕ) (is : List ℕ) (n m : ℕ) (r : Tables × Unit {0})
      → 0 < T.level t
      → T.level t < 4
      → P.pte_is_present (s.entries t i) ≡ true
      → n ≤ m
      → IsMapped T (P.pte_physical_address (s.entries t i)) (j ∷ is) n r
      → IsMapped T t (i ∷ j ∷ is) m r
  unfolding resolve
  descend-IsMapped {s} T t i j is n m (s', k) pos high there le (W, freed, (old, e)) =
      let deeper = T.child_level t i pos high there in
      let same = W.edits.above t i pos (omega arith) in
      (
        record {
          tree = W.tree;
          edits = descend-Edits T W.tree t i (j ∷ is) pos high there W.edits;
          base = W.base;
          frames = W.frames;
          kernel = W.kernel;
          used = omega (arith, W.used);
        },
        freed,
        (old, rw (same, there) e),
      )

  -- A walk over the tree with a new table in it is one of the tree.
  module _ {s : Tables} (T : Tree s) (t i : ℕ) (pos : 0 < T.level t) (high : T.level t < 4)
      (absent : P.pte_is_present (s.entries t i) ≡ false)
      (room : s.current_index < s.number_of_frames) where
    abbrev G : Tree (with_structure s t i)
    G = grown-Tree T t i pos high absent room

    same_level : (u : ℕ) → 0 < T.level u → G.level u ≡ T.level u
    same_level u h = grown_level T t i pos high absent room u h

    grow-IsMapped :
        (is : List ℕ) (n : ℕ) (r : Tables × Unit {0})
        → length is + suc (T.level t) ≡ 5
        → IsMapped G t (i ∷ is) n r
        → IsMapped T t (i ∷ is) (suc n) r
    grow-IsMapped is n (s', k) len (W, freed, (old, e)) =
        let above_grown = λ (u j : ℕ) (p : 0 < T.level u) (h : T.level u < T.level t).
          W.edits.above u j (omega (arith, same_level u p))
            (omega (arith, same_level u p, same_level t pos))
          ∙ grown_above T t i pos high absent room u j p h in
        (
          record {
            tree = W.tree;
            edits = record {
              kept = λ u h. W.edits.kept u (omega (arith, same_level u h)) ∙ same_level u h;
              above = above_grown;
              others = λ u js a l m d.
                  W.edits.others u js a (same_level u (omega arith) ∙ l ∙ sym (same_level t pos)) m
                    d
                  ∙ grown-resolve T t i pos high absent room u js a l (omega arith);
            };
            base = W.base;
            frames = W.frames;
            kernel = W.kernel;
            used = omega (arith, W.used);
          },
          freed,
          (old, e),
        )

    -- The walk sets up the table and goes on in it.
    map_grown :
        (j : ℕ) (is : List ℕ) (l n : ℕ)
        → T.level t ≡ l
        → length is + 2 + l ≡ 5
        → Returns
            (IsMapped G (P.pte_physical_address ((with_structure s t i).entries t i)) (j ∷ is) n)
            (walk
              (map_page pat c va)
              (j ∷ is)
              (suc l)
              (P.pte_physical_address ((with_structure s t i).entries t i))
              (with_structure s t i)
              tt)
        → Returns
            (IsMapped T t (i ∷ j ∷ is) (suc n))
            (walk (map_page pat c va) (i ∷ j ∷ is) l t s tt)
    map_grown j is l n le len below =
        let there = grown_present T t i pos high absent room in
        let g = same_level t pos in
        rw
          (walk_step (map_page pat c va) i (j ∷ is) l t s (with_structure s t i) tt tt
            (map_page_absent l t i s tt (omega arith) absent room)
            (inr (G.child_small t i (omega arith) (omega arith) there)))
          (Returns-map _
            (λ r h.
              grow-IsMapped (j ∷ is) n r (omega arith) (
                descend-IsMapped G t i j is n n r (omega arith) (omega arith) there (omega arith)
                  h))
            below)

  map_below :
      {s : Tables} (T : Tree s) (t i j : ℕ) (is : List ℕ) (l n : ℕ)
      → T.level t ≡ l
      → 0 < l
      → length is + 2 + l ≡ 5
      → P.pte_is_present (s.entries t i) ≡ true
      → Returns
          (IsMapped T (P.pte_physical_address (s.entries t i)) (j ∷ is) n)
          (walk (map_page pat c va) (j ∷ is) (suc l) (P.pte_physical_address (s.entries t i)) s tt)
      → Returns (IsMapped T t (i ∷ j ∷ is) (suc n)) (walk (map_page pat c va) (i ∷ j ∷ is) l t s tt)
  map_below {s} T t i j is l n le pos len there below =
      rw
        (walk_step (map_page pat c va) i (j ∷ is) l t s s tt tt
          (map_page_present l t i s tt (omega arith) there)
          (inr (T.child_small t i (omega arith) (omega arith) there)))
        (Returns-map _
          (λ r h.
            descend-IsMapped T t i j is n (suc n) r (omega arith) (omega arith) there (omega arith)
              h)
          below)

  IsOpen-below :
      (i j : ℕ) (is : List ℕ) (t : ℕ) (f : ℕ → ℕ → ℕ)
      → P.pte_is_present (f t i) ≡ true
      → IsOpen f (i ∷ j ∷ is) t
      → IsOpen f (j ∷ is) (P.pte_physical_address (f t i))
  unfolding resolve
  IsOpen-below i j is t f there (inl h) = inl h
  IsOpen-below i j is t f there (inr h) = inr (rw there at h)

  -- An absent entry stays a dead end when its new table is there.
  grown-IsOpen :
      {s : Tables} (T : Tree s) (t i j : ℕ) (is : List ℕ) (pos : 0 < T.level t)
      (high : T.level t < 4) (absent : P.pte_is_present (s.entries t i) ≡ false)
      (room : s.current_index < s.number_of_frames)
      → IsOpen
          (with_structure s t i).entries
          (j ∷ is)
          (P.pte_physical_address ((with_structure s t i).entries t i))
  unfolding resolve
  grown-IsOpen {s} T t i j is pos high absent room =
      inr (rw (grown_empty T t i pos high absent room j, P.zero_absent) refl)

  -- The walk of the callback from a table of the tree returns, and maps the page.
  pub map_walk :
      (is : List ℕ) (i : ℕ) {s : Tables} (T : Tree s) (l t : ℕ)
      → T.level t ≡ l
      → 0 < l
      → length is + l ≡ 4
      → s.current_index + length is ≤ s.number_of_frames
      → IsOpen s.entries (i ∷ is) t
      → Returns (IsMapped T t (i ∷ is) (length is)) (walk (map_page pat c va) (i ∷ is) l t s tt)
  map_walk [] i T l t le pos len room open_ =
      let last : l ≡ 4 = omega arith in rw last (map_last T t i (le ∙ last) open_)
  map_walk (j ∷ is) i {s} T l t le pos len room open_ =
      elim (Bool-cases (P.pte_is_present (s.entries t i))) [
        | inl there ↦ map_below T t i j is l (length is) le pos (omega arith) there (
            map_walk is j {s = s} T (suc l) (P.pte_physical_address (s.entries t i))
              (omega (arith, T.child_level t i (omega arith) (omega arith) there)) (omega arith)
              (omega arith) (omega arith) (IsOpen-below i j is t s.entries there open_))
        | inr absent ↦
            let room' : s.current_index < s.number_of_frames = omega arith in
            let p : 0 < T.level t = omega arith in
            let h : T.level t < 4 = omega arith in
            map_grown T t i p h absent room' j is l (length is) le (omega arith) (
              map_walk is j {s = with_structure s t i} (grown-Tree T t i p h absent room') (suc l)
                (P.pte_physical_address ((with_structure s t i).entries t i))
                (grown_child T t i p h absent room' ∙ omega arith) (omega arith) (omega arith)
                (omega arith) (grown-IsOpen T t i j is p h absent room'))
      ]
