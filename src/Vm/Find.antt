-- ===== src/Vm/Find.antt =====
-- The two searches of src/HAL9000/src/vm_reservation_space.c in the list of reservations.
use good_osd_project.Prelude.{
  refl, ℕ, zero, suc, ◌≡◌, ◌<◌, true, false, none, some, List, [], ◌∷◌, arith, get_elem?, set,
  length,
}
use good_osd_project.CommonLib.{Checks}
use good_osd_project.Vm.{free, used, last, Reservation, find, claim, holds}

module _ ⦃C : Checks⦄ where
  -- No slot in use before the last one holds the range.
  abbrev pub NotHeld : List Reservation → (address size : ℕ) → Type 0
  NotHeld [] address size = Unit
  NotHeld (r ∷ rs) address size = elim r.state [
    | last ↦ Unit
    | free ↦ NotHeld rs address size
    | used ↦ (holds r address size ≡ false) × NotHeld rs address size
  ]

  -- What a search that finds something has found.
  abbrev pub Found : List Reservation → (address size i : ℕ) → Type 0
  Found rs address size i =
      (r : Reservation) × (get_elem? rs i ≡ some r)
      × (r.state ≡ used)
      × (holds r address size ≡ true)

  -- The search finds a slot in use that holds the whole range.
  pub find-Found :
      (rs : List Reservation) (address size i : ℕ)
      → find rs address size ≡ some i
      → Found rs address size i
  unfolding find
  find-Found [] a n i e = ground arith
  find-Found (r ∷ rs) a n zero e = (r, refl, ground arith, ground arith)
  find-Found (r ∷ rs) a n (suc i) e = find-Found rs a n i (ground arith)

  -- It fails exactly when there is none before the last slot.
  pub find-none_iff :
      (rs : List Reservation) (address size : ℕ)
      → (find rs address size ≡ none → NotHeld rs address size)
        × (NotHeld rs address size → find rs address size ≡ none)
  unfolding find
  find-none_iff [] a n = (λ e. tt, λ h. refl)
  find-none_iff (r ∷ rs) a n =
      let (to, from) = find-none_iff rs a n in (λ e. ground (arith, to), λ h. ground (arith, from))

  pub claim-length :
      (rs : List Reservation) (i : ℕ) → (claim rs).0 ≡ some i → i < length (claim rs).1
  unfolding claim
  claim-length [] i e = ground arith
  claim-length (r ∷ rs) zero e = ground arith
  claim-length (r ∷ rs) (suc i) e = ground (arith, claim-length rs i)

  -- The slot that a claim gives, once it is in use and holds a range, is what a search for the
  -- range finds, if no slot held the range before.
  pub find-claim :
      (rs : List Reservation) (address size i : ℕ) (new : Reservation)
      → (claim rs).0 ≡ some i
      → NotHeld rs address size
      → new.state ≡ used
      → holds new address size ≡ true
      → find (set (claim rs).1 i new) address size ≡ some i
  unfolding find claim
  find-claim [] a n i new e h u w = ground arith
  find-claim (r ∷ rs) a n zero new e h u w = ground arith
  find-claim (r ∷ rs) a n (suc i) new e h u w = ground (arith, find-claim rs a n i new)
