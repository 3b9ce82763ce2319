-- ===== src/Vm/Ops.antt =====
-- The operations on a reservation space, src/HAL9000/src/vm_reservation_space.c.
use good_osd_project.Prelude.{
  ℕ, ◌+◌, ◌-◌, ◌/◌, ◌%◌, Bool, true, false, not, ◌&&◌, ◌||◌, none, some, get_elem?, set, ltb, leb,
  ◌==◌, ◌^◌, if◌then◌else◌,
}
use good_osd_project.CommonLib.{Checks, PageMath, BitmapOps, page_size, max_dword}
use good_osd_project.Kernel.{
  Outcome, done, bug_check, spinning, ◌>>=◌, ◌>>◌, assert, qword, Status, success,
  memory_is_not_reserved, spinning, memory_already_reserved, memory_conflicting_access_rights,
  memory_conflicting_cacheability, memory_cannot_be_reserved,
}
use good_osd_project.Vm.{used, Reservation, Space, find, claim}

-- `VMM_ALLOC_TYPE`, the two flags that these functions read
pub record AllocType : Type 0 where
  pub reserve : Bool
  pub commit : Bool

-- What is asked of a range: rights, caching, and the file behind it (0 for none).
pub record Request : Type 0 where
  pub rights : ℕ
  pub uncached : Bool
  pub file : ℕ

abbrev pub is_aligned : ℕ → Bool
is_aligned a = a % page_size == 0

abbrev pub same_bool : Bool → Bool → Bool
same_bool true b = b
same_bool false b = not b

-- A write through a pointer to a slot, and a read: the slot is one that `find` or `claim` gave.
abbrev pub slot_at : Space → ℕ → Outcome Reservation
slot_at s i = elim (get_elem? s.reservations i) [ none ↦ bug_check | some r ↦ done r ]

abbrev pub set_slot : Space → ℕ → Reservation → Space
set_slot s i r = record s { reservations = set s.reservations i r }

-- The assertions of `_VmChangeVaReservationState` and of `_VmDecommitReservation` on the range.
abbrev pub assert_range : (address size : ℕ) → Outcome (Unit {0})
assert_range address size =
    assert (not (address == 0) && not (size == 0) && is_aligned address && is_aligned size)

-- The page of a reservation in which an address lies.
abbrev pub page_index : Reservation → ℕ → ℕ
page_index r address = (address - r.start_va) / page_size

module _ ⦃C : Checks⦄ ⦃M : PageMath⦄ ⦃B : BitmapOps⦄ where
  -- `_VmInitializeReservation`
  unfoldable pub initialize : Space → (address size : ℕ) → Request → (slot : ℕ) → Outcome Space
  initialize s address size q slot = do
    let pages = size / page_size
    let bytes = B.buffer_size pages
    assert (leb pages max_dword)
    assert (not (bytes == 0))
    assert (is_aligned s.free_bitmap_address)
    let room = M.align_upper bytes
    assert
        (C.check_bounds s.free_bitmap_address room s.reservation_list_address s.reserved_area_size)
    let r : Reservation = record {
      start_va = address;
      size = size;
      page_rights = q.rights;
      state = used;
      uncacheable = q.uncached;
      backing_file = q.file;
      commit_bitmap = B.clear;
      bitmap_buffer = s.free_bitmap_address;
      bitmap_size = bytes;
    }
    done (record (set_slot s slot r) { free_bitmap_address = s.free_bitmap_address + room })

  -- `_VmCommitReservation` and `_VmDecommitReservation`; the assertions of the first on the range are
  -- those of its caller.
  unfoldable pub commit_pages : Reservation → (address size : ℕ) → Reservation
  commit_pages r address size = record r {
    commit_bitmap = B.set_bits r.commit_bitmap (page_index r address) (size / page_size);
  }

  unfoldable pub decommit_pages : Reservation → (address size : ℕ) → Outcome Reservation
  decommit_pages r address size = do
    assert_range address size
    let start_index = qword (address + 2 ^ 64 - r.start_va) / page_size
    assert (leb (size / page_size) max_dword)
    assert (leb start_index max_dword)
    let bits = B.clear_bits r.commit_bitmap start_index (size / page_size)
    done (record r { commit_bitmap = bits })

  -- `_VmIsVaCommited`
  unfoldable pub is_committed : Reservation → ℕ → Bool
  is_committed r address = r.commit_bitmap (page_index r address)

  -- `_VmChangeVaReservationState` for `VMM_ALLOC_TYPE_RESERVE`
  unfoldable pub reserve_range : Space → (address size : ℕ) → Request → Outcome (Status × Space)
  reserve_range s address size q =
      assert_range address size >> elim (find s.reservations address size) [
        | some i ↦ done (memory_already_reserved, s)
        | none ↦
            let (slot, list, over) = claim s.reservations in
            elim slot [
              | none ↦ bug_check
              | some i ↦ do
                let claimed = record s { reservations = list; overrun = s.overrun || over }
                s' ← initialize claimed address size q i
                done (success, s')
            ]
      ]

  -- `_VmChangeVaReservationState` for `VMM_ALLOC_TYPE_COMMIT`
  unfoldable pub commit_range : Space → (address size : ℕ) → Request → Outcome (Status × Space)
  commit_range s address size q =
      assert_range address size >> elim (find s.reservations address size) [
        | none ↦ done (memory_is_not_reserved, s)
        | some i ↦ do
          r ← slot_at s i
          if not (r.page_rights == q.rights)
              then done (memory_conflicting_access_rights, s)
              else (if not (same_bool r.uncacheable q.uncached)
                  then done (memory_conflicting_cacheability, s)
                  else done (success, set_slot s i (commit_pages r address size)))
      ]

  abbrev pub on_success :
      Outcome (Status × Space) → (Space → Outcome (Status × Space)) → Outcome (Status × Space)
  on_success (done (success, s)) f = f s
  on_success (done (st, s)) f = done (st, s)
  on_success bug_check f = bug_check
  on_success spinning f = spinning

  -- The part of `VmReservationSpaceAllocRegion` under the lock.
  unfoldable pub change_states :
      Space → (address size : ℕ) → AllocType → Request → Outcome (Status × Space)
  change_states s address size ty q =
      on_success (if ty.reserve then reserve_range s address size q else done (success, s))
        λ s'. if ty.commit then commit_range s' address size q else done (success, s')

  -- `VmReservationSpaceDetermineNextFreeVirtualAddress`
  unfoldable pub next_free_address : Space → ℕ → ℕ × Space
  next_free_address s size =
      let a = s.free_virtual_address_pointer in
      (a, record s { free_virtual_address_pointer = qword (a + size) })

  -- What `VmReservationSpaceAllocRegion` stores of a range: nothing where it fails, shown as 0.
  abbrev pub stored : Status → ℕ → ℕ
  stored success n = n
  stored _ n = 0

  -- `VmReservationSpaceAllocRegion`: the status, the mapped address and size.
  unfoldable pub alloc_region :
      Space → (base size : ℕ) → AllocType → Request → Outcome (Status × ℕ × ℕ × Space)
  unfolding next_free_address
  alloc_region s base size ty q =
      assert (not (size == 0))
      >> (assert (ty.reserve || ty.commit)
          >> (if base == 0
              then (do
                let aligned = M.align_upper size
                let (address, s') = next_free_address s aligned
                (st, s'') ← change_states s' address aligned ty q
                done (st, stored st address, stored st aligned, s''))
              else (do
                let address = M.align_lower base
                let aligned = M.align_upper (size + (base - address))
                if ltb address s.start_of_virtual_address_space
                    then done (memory_cannot_be_reserved, 0, 0, s)
                    else (do
                      (st, s') ← change_states s address aligned ty q
                      done (st, stored st address, stored st aligned, s')))))
