-- ===== src/Paging/Tree.antt =====
-- The tables of src/HAL9000/src/vmm.c as a tree: each present entry above the last level points to a
-- table of its own. What an edit of one path keeps of the others.
use good_osd_project.Prelude.{
  ℕ, ◌+◌, ◌*◌, ◌%◌, ◌^◌, ◌≡◌, ◌≤◌, ◌<◌, true, false, List, [], ◌∷◌, if◌then◌else◌, Option, none,
  some, length, refl, arith, Bool-cases, inr, inl,
}
use good_osd_project.CommonLib.{page_size}
use good_osd_project.Paging.Entries.{PteOps}
use good_osd_project.Paging.{Tables}

module _ ⦃P : PteOps⦄ where
  -- The last entry of the path `is` from the table `t`, if all on the path are present; `e` for the
  -- empty path.
  unfoldable pub resolve : (ℕ → ℕ → ℕ) → List ℕ → (t e : ℕ) → Option ℕ
  resolve f [] t e = some e
  resolve f (i ∷ is) t e =
      let rest = resolve f is (P.pte_physical_address (f t i)) (f t i) in
      if P.pte_is_present (f t i) then rest else none

-- The level of each table in use, with 0 for all other addresses, and the entry that points to it.
pub record Tree ⦃P : PteOps⦄ (s : Tables) : Type 0 where
  pub level : ℕ → ℕ
  pub parent : ℕ → ℕ
  pub slot : ℕ → ℕ
  pub root : level s.base_physical_address ≡ 1
  pub fresh : (n : ℕ) → s.current_index ≤ n → level (s.base_physical_address + n * page_size) ≡ 0
  pub child_level :
      (t i : ℕ)
      → 0 < level t
      → level t < 4
      → P.pte_is_present (s.entries t i) ≡ true
      → level (P.pte_physical_address (s.entries t i)) ≡ level t + 1
  pub child_parent :
      (t i : ℕ)
      → 0 < level t
      → level t < 4
      → P.pte_is_present (s.entries t i) ≡ true
      → parent (P.pte_physical_address (s.entries t i)) ≡ t
  pub child_slot :
      (t i : ℕ)
      → 0 < level t
      → level t < 4
      → P.pte_is_present (s.entries t i) ≡ true
      → slot (P.pte_physical_address (s.entries t i)) ≡ i
  pub child_small :
      (t i : ℕ)
      → 0 < level t
      → level t < 4
      → P.pte_is_present (s.entries t i) ≡ true
      → P.page_size_bit (s.entries t i) ≡ false
  pub base_aligned : s.base_physical_address % page_size ≡ 0
  pub base_small : s.base_physical_address + 2 ^ 32 ≤ 2 ^ 52
  pub few_frames : s.number_of_frames ≤ 2 ^ 20

-- What an edit along the path `is` from the table `t` leaves alone.
pub record Edits ⦃P : PteOps⦄ {s s' : Tables} (T : Tree s) (T' : Tree s') (t : ℕ) (is : List ℕ)
    : Type 0 where
  pub kept : (u : ℕ) → 0 < T.level u → T'.level u ≡ T.level u
  pub above : (u j : ℕ) → 0 < T.level u → T.level u < T.level t → s'.entries u j ≡ s.entries u j
  pub others :
      (u : ℕ) (js : List ℕ) (e : ℕ)
      → T.level u ≡ T.level t
      → length js ≡ length is
      → ¬ ((u ≡ t) × (js ≡ is))
      → resolve s'.entries js u e ≡ resolve s.entries js u e

module _ ⦃P : PteOps⦄ {s : Tables} (T : Tree s) where
  -- Paths that start at one level agree where the tables from that level on do.
  pub resolve_deeper :
      (f : ℕ → ℕ → ℕ) (js : List ℕ) (u e : ℕ)
      → 0 < T.level u
      → length js + T.level u ≡ 5
      → ((v k : ℕ) → T.level u ≤ T.level v → f v k ≡ s.entries v k)
      → resolve f js u e ≡ resolve s.entries js u e
  unfolding resolve
  resolve_deeper f [] u e pos len h = refl
  resolve_deeper f (j ∷ []) u e pos len h = rw (h u j (omega arith)) refl
  resolve_deeper f (j ∷ k ∷ js) u e pos len h =
      let eq = h u j (omega arith) in
      elim (Bool-cases (P.pte_is_present (s.entries u j))) [
        | inr absent ↦ rw (eq, absent) refl
        | inl present ↦
            let deeper = T.child_level u j pos (omega arith) present in
            rw (eq, present)
              (resolve_deeper f (k ∷ js) (P.pte_physical_address (s.entries u j)) (s.entries u j)
                (omega arith) (omega arith) (λ v m le. h v m (omega arith)))
      ]
