-- ===== src/Vm.antt =====
-- Reservations of virtual memory, src/HAL9000/src/vm_reservation_space.c: the data, and the searches in
-- the list of reservations. The lock of the space is held by each function from end to end.
pub mod Ops
pub mod Access
pub mod Find
pub mod Alloc
pub mod Usable
pub mod Release
pub mod Init
use good_osd_project.Prelude.{
  ℕ, zero, suc, ◌+◌, ◌-◌, ◌/◌, Bool, true, false, not, Option, none, some, List, [], ◌∷◌,
  if◌then◌else◌,
}
use good_osd_project.CommonLib.{Checks}

-- `VMM_RESERVATION_STATE`
pub data SlotState : Type 0 where
  free used last : SlotState

abbrev pub is_used : SlotState → Bool
is_used used = true
is_used _ = false

-- `VMM_RESERVATION`. The commit bitmap is the function of its bits, with its buffer beside it.
pub record Reservation : Type 0 where
  pub start_va : ℕ
  pub size : ℕ
  pub page_rights : ℕ
  pub state : SlotState
  pub uncacheable : Bool
  pub backing_file : ℕ
  pub commit_bitmap : ℕ → Bool
  pub bitmap_buffer : ℕ
  pub bitmap_size : ℕ

-- `VMM_RESERVATION_SPACE`. The list holds the slots that lie below `BitmapAddressStart`; `overrun`
-- tells whether the state of a slot behind them has been written, into the bitmaps' buffers.
pub record Space : Type 0 where
  pub free_virtual_address_pointer : ℕ
  pub start_of_virtual_address_space : ℕ
  pub reservation_list_address : ℕ
  pub bitmap_address_start : ℕ
  pub reserved_area_size : ℕ
  pub free_bitmap_address : ℕ
  pub reservations : List Reservation
  pub overrun : Bool

-- What `memzero` leaves of a slot.
abbrev pub zeroed : Reservation
zeroed = record {
  start_va = 0;
  size = 0;
  page_rights = 0;
  state = free;
  uncacheable = false;
  backing_file = 0;
  commit_bitmap = λ _. false;
  bitmap_buffer = 0;
  bitmap_size = 0;
}

abbrev pub shift : Option ℕ → Option ℕ
shift none = none
shift (some i) = some (suc i)

module _ ⦃C : Checks⦄ where
  abbrev pub holds : Reservation → (address size : ℕ) → Bool
  holds r address size = C.check_bounds address size r.start_va r.size

  -- `_VmFindReservation`: the index of the first slot in use that holds the range.
  unfoldable pub find : List Reservation → (address size : ℕ) → Option ℕ
  find [] address size = none
  find (r ∷ rs) address size =
      let rest = shift (find rs address size) in
      elim r.state [
        | last ↦ none
        | free ↦ rest
        | used ↦ if holds r address size then some 0 else rest
      ]

-- The write of `VmmReservationStateLast` to the slot behind the one that was the last.
abbrev pub mark_last : List Reservation → List Reservation
mark_last [] = []
mark_last (r ∷ rs) = record r { state = last } ∷ rs

abbrev pub is_empty : List Reservation → Bool
is_empty [] = true
is_empty (r ∷ rs) = false

-- `_VmFindFirstFreeReservation`: the slot, the list behind it, and whether it wrote past the list.
unfoldable pub claim : List Reservation → Option ℕ × List Reservation × Bool
claim [] = (none, [], false)
claim (r ∷ rs) =
    let (slot, rs', over) = claim rs in
    elim r.state [
      | free ↦ (some 0, r ∷ rs, false)
      | last ↦ (some 0, record r { state = free } ∷ mark_last rs, is_empty rs)
      | used ↦ (shift slot, r ∷ rs', over)
    ]
