-- ===== src/Paging/Retrieve.antt =====
-- `_VmRetrievePhyAccess` under the walk of src/HAL9000/src/vmm.c: what it finds is the end of the path.
use good_osd_project.Prelude.{
  ℕ, suc, ◌+◌, ◌≡◌, ◌≢◌, ◌<◌, Bool, true, false, List, [], ◌∷◌, Option, none, some, length, refl,
  arith, inl, inr, Bool-cases,
}
use good_osd_project.Kernel.{done, Returns, Returns-map, null}
use good_osd_project.Paging.Entries.{PteOps}
use good_osd_project.Paging.{Tables, Found, retrieve_phy_access, note_access, walk}
use good_osd_project.Paging.Tree.{Tree, resolve}
use good_osd_project.Paging.Map.{walk_step, walk_stop}

module _ ⦃P : PteOps⦄ where
  -- The address that an entry maps, or `NULL`.
  abbrev pub address_of : Option ℕ → ℕ
  address_of none = null
  address_of (some e) = P.pte_physical_address e

  module _ (ca cd : Bool) (va : ℕ) (valid : va ≢ 0) where
    retrieve_absent :
        (l t i : ℕ) (s : Tables) (k : Found)
        → P.pte_is_present (s.entries t i) ≡ false
        → retrieve_phy_access ca cd va l t i s k
          ≡ done (false, s, record k { physical_address = null })
    unfolding retrieve_phy_access
    retrieve_absent l t i s k p = ground arith

    retrieve_table :
        (l t i : ℕ) (s : Tables) (k : Found)
        → l < 4
        → P.pte_is_present (s.entries t i) ≡ true
        → P.page_size_bit (s.entries t i) ≡ false
        → retrieve_phy_access ca cd va l t i s k ≡ done (true, s, k)
    unfolding retrieve_phy_access
    retrieve_table l t i s k h p small = ground arith

    retrieve_page :
        (t i : ℕ) (s : Tables) (k : Found)
        → P.pte_is_present (s.entries t i) ≡ true
        → retrieve_phy_access ca cd va 4 t i s k
          ≡ done (note_access ca cd t i (P.pte_physical_address (s.entries t i)) s)
    unfolding retrieve_phy_access
    retrieve_page t i s k p = ground arith

    abbrev pub Finds : Tables → (t : ℕ) → List ℕ → Tables × Found → Type 0
    Finds s t is (s', k) = k.physical_address ≡ address_of (resolve s.entries is t 0)

    retrieve_gone :
        (s : Tables) (is : List ℕ) (i l t : ℕ) (k : Found)
        → P.pte_is_present (s.entries t i) ≡ false
        → Returns (Finds s t (i ∷ is)) (walk (retrieve_phy_access ca cd va) (i ∷ is) l t s k)
    unfolding resolve
    retrieve_gone s is i l t k absent =
        rw
          (
            walk_stop (retrieve_phy_access ca cd va) i is l t s s k _
                (retrieve_absent l t i s k absent),
            absent,
          )
          refl

    retrieve_last :
        (s : Tables) (t i : ℕ) (k : Found)
        → P.pte_is_present (s.entries t i) ≡ true
        → Returns (Finds s t (i ∷ [])) (walk (retrieve_phy_access ca cd va) (i ∷ []) 4 t s k)
    unfolding resolve note_access
    retrieve_last s t i k there =
        rw
          (
            walk_stop (retrieve_phy_access ca cd va) i [] 4 t s _ k _ (retrieve_page t i s k there),
            there,
          )
          refl

    Finds-below :
        (s : Tables) (t i j : ℕ) (is : List ℕ) (r : Tables × Found)
        → P.pte_is_present (s.entries t i) ≡ true
        → Finds s (P.pte_physical_address (s.entries t i)) (j ∷ is) r
        → Finds s t (i ∷ j ∷ is) r
    unfolding resolve
    Finds-below s t i j is (s', k) there h = rw there h

    -- The walk of the callback from a table of the tree returns the address behind the path.
    pub retrieve_walk :
        {s : Tables} (T : Tree s) (is : List ℕ) (i l t : ℕ) (k : Found)
        → T.level t ≡ l
        → 0 < l
        → length is + l ≡ 4
        → Returns (Finds s t (i ∷ is)) (walk (retrieve_phy_access ca cd va) (i ∷ is) l t s k)
    retrieve_walk {s} T [] i l t k le pos len =
        elim (Bool-cases (P.pte_is_present (s.entries t i))) [
          | inr absent ↦ retrieve_gone s [] i l t k absent
          | inl there ↦ let last : l ≡ 4 = omega arith in rw last (retrieve_last s t i k there)
        ]
    retrieve_walk {s} T (j ∷ is) i l t k le pos len =
        elim (Bool-cases (P.pte_is_present (s.entries t i))) [
          | inr absent ↦ retrieve_gone s (j ∷ is) i l t k absent
          | inl there ↦
              let small = T.child_small t i (omega arith) (omega arith) there in
              rw
                (walk_step (retrieve_phy_access ca cd va) i (j ∷ is) l t s s k k
                  (retrieve_table l t i s k (omega arith) there small) (inr small))
                (Returns-map _ (λ r h. Finds-below s t i j is r there h)
                  (retrieve_walk T is j (suc l) (P.pte_physical_address (s.entries t i)) k
                    (omega (arith, T.child_level t i (omega arith) (omega arith) there))
                    (omega arith) (omega arith)))
        ]
