-- ===== src/Vm/Access.antt =====
-- Release, page faults and the rights of an address, src/HAL9000/src/vm_reservation_space.c.
use good_osd_project.Prelude.{
  ℕ, zero, suc, ◌+◌, ◌-◌, ◌/◌, Bool, true, false, not, ◌&&◌, Option, none, some, ◌==◌,
  if◌then◌else◌,
}
use good_osd_project.CommonLib.{Checks, PageMath, BitmapOps, page_size}
use good_osd_project.Kernel.{
  Outcome, done, bug_check, ◌>>=◌, ◌>>◌, assert, qword, Status, success, memory_is_not_commited,
}
use good_osd_project.Vm.{Reservation, Space, zeroed, find}
use good_osd_project.Vm.Ops.{slot_at, set_slot, decommit_pages, is_committed, is_aligned, same_bool}

-- `VMM_FREE_TYPE`
pub data FreeType : Type 0 where
  release decommit : FreeType

abbrev pub is_release : FreeType → Bool
is_release release = true
is_release decommit = false

-- What `_VmUninitializeReservation` gives back: the bitmap's buffer, and the file (0 for none).
pub record Uninitialized : Type 0 where
  pub unmapped_buffer : ℕ
  pub unmapped_size : ℕ
  pub closed_file : ℕ

unfoldable pub uninitialize : Reservation → Outcome Uninitialized
uninitialize r = do
  assert (is_aligned r.bitmap_buffer)
  done (record {
    unmapped_buffer = r.bitmap_buffer;
    unmapped_size = r.bitmap_size;
    closed_file = r.backing_file;
  })

-- What `VmReservationCanAddressBeAccessed` tells of an access that it allows.
pub record Access : Type 0 where
  pub memory_rights : ℕ
  pub uncacheable : Bool
  pub backing_file : ℕ
  pub file_offset : ℕ

module _ ⦃C : Checks⦄ ⦃M : PageMath⦄ ⦃B : BitmapOps⦄ where
  -- `VmReservationSpaceFreeRegion`: the range to unmap, and what the release gives back, which its
  -- caller unmaps. A region that is not found stops the machine.
  unfoldable pub free_region :
      Space → (address size : ℕ) → FreeType → Outcome (ℕ × ℕ × Option Uninitialized × Space)
  free_region s address size ty = do
    assert (not (address == 0))
    assert (same_bool (is_release ty) (size == 0))
    elim (find s.reservations address 1) [
      | none ↦ bug_check
      | some i ↦ do
        r ← slot_at s i
        elim ty [
          | release ↦ do
            gone ← uninitialize r
            done (r.start_va, r.size, some gone, set_slot s i zeroed)
          | decommit ↦ do
            let aligned = M.align_lower address
            let n = M.align_upper (qword (size + (address - aligned)))
            r' ← decommit_pages r aligned n
            done (aligned, n, none, set_slot s i r')
        ]
    ]

  -- The branch of `VmReservationCanAddressBeAccessed` for the space's own metadata: `known` tells
  -- that the CPU is working on it, or that there is no CPU structure yet.
  unfoldable pub access_metadata : (known : Bool) → (rights : ℕ) → Option Access
  access_metadata known rights =
      if known && not (C.is_flag_on rights C.page_rights_execute)
      then some (record {
        memory_rights = C.page_rights_readwrite;
        uncacheable = false;
        backing_file = 0;
        file_offset = 0;
      })
      else none

  -- Its branch for any other address.
  unfoldable pub access_memory : Space → (address rights : ℕ) → Outcome (Option Access)
  access_memory s address rights = elim (find s.reservations address 1) [
    | none ↦ done none
    | some i ↦ do
      r ← slot_at s i
      let offset = if r.backing_file == 0 then 0 else M.align_lower (address - r.start_va)
      done (
          if is_committed r address && C.is_flag_on r.page_rights rights
          then some (record {
            memory_rights = r.page_rights;
            uncacheable = r.uncacheable;
            backing_file = r.backing_file;
            file_offset = offset;
          })
          else none)
  ]

  -- `VmReservationCanAddressBeAccessed`
  unfoldable pub can_address_be_accessed :
      Space → (known : Bool) → (address rights : ℕ) → Outcome (Option Access)
  unfolding access_metadata access_memory
  can_address_be_accessed s known address rights =
      if address == 0
      then done none
      else (if C.check_bounds address 1 s.reservation_list_address s.reserved_area_size
          then done (access_metadata known rights)
          else access_memory s address rights)

  -- The loop of `VmReservationReturnRightsForAddress`: `rounds` pages are left to look at.
  unfoldable pub all_committed : Reservation → (rounds at : ℕ) → Bool
  unfolding is_committed
  all_committed r zero at = true
  all_committed r (suc n) at = is_committed r at && all_committed r n (at + page_size)

  -- `VmReservationReturnRightsForAddress`: the rights are stored wherever a reservation is found. Where
  -- none is found the status is that of memory that is not committed, as at the code's only `return`.
  unfoldable pub return_rights : Space → (address size : ℕ) → Outcome (Status × Option ℕ)
  return_rights s address size = do
    assert (not (address == 0))
    assert (not (size == 0))
    elim (find s.reservations address size) [
      | none ↦ done (memory_is_not_commited, none)
      | some i ↦ do
        r ← slot_at s i
        let full = all_committed r ((size + (page_size - 1)) / page_size) address
        done (if full then success else memory_is_not_commited, some r.page_rights)
    ]
