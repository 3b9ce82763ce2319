-- ===== src/Vm/Init.antt =====
-- The set-up of a reservation space, src/HAL9000/src/vm_reservation_space.c. `percentage` is
-- CommonLib's `CalculatePercentage`, in hundredths of a percent; `slots` are the slots that fit below
-- `BitmapAddressStart`, as the memory holds them.
use good_osd_project.Prelude.{
  ℕ, ◌+◌, ◌*◌, ◌/◌, ◌%◌, ◌≡◌, ◌≢◌, ◌≤◌, false, not, some, List, ◌∷◌, ◌==◌, if◌then◌else◌, refl,
  arith,
}
use good_osd_project.CommonLib.{Checks, PageMath, BitmapOps, page_size, max_dword}
use good_osd_project.Kernel.{Outcome, done, ◌>>◌, assert, Returns, success}
use good_osd_project.Vm.{Reservation, Space, claim, mark_last}
use good_osd_project.Vm.Ops.{Request, alloc_region, is_aligned}
use good_osd_project.Vm.Alloc.{HasRoom}
use good_osd_project.Vm.Access.{return_rights}
use good_osd_project.Vm.Usable.{alloc_region-return_rights, drawn, reserve_and_commit}

-- 20 percent, in hundredths.
abbrev pub reservation_list_percentage : ℕ
reservation_list_percentage = 20 * 100

abbrev pub first_address : (metadata base size : ℕ) → ℕ
first_address metadata base size = if base == 0 then metadata + size else base

module _ (percentage : ℕ → ℕ → ℕ) (slots : List Reservation) where
  abbrev pub new_space : (metadata base size : ℕ) → Space
  new_space metadata base size = record {
    free_virtual_address_pointer = first_address metadata base size;
    start_of_virtual_address_space = first_address metadata base size;
    reservation_list_address = metadata;
    bitmap_address_start = metadata + percentage size reservation_list_percentage;
    reserved_area_size = size;
    free_bitmap_address = metadata + percentage size reservation_list_percentage;
    reservations = slots;
    overrun = false;
  }

  -- `VmReservationSpaceInit`; `base` may be 0.
  unfoldable pub init : (metadata base size : ℕ) → Outcome Space
  init metadata base size = do
    assert (not (metadata == 0))
    assert (is_aligned metadata)
    assert (not (size == 0))
    done (new_space metadata base size)

-- `VmReservationSpaceFinishInit`
unfoldable pub finish_init : Space → Space
finish_init s = record s { reservations = mark_last s.reservations }

module _ ⦃C : Checks⦄ ⦃M : PageMath⦄ ⦃B : BitmapOps⦄ (percentage : ℕ → ℕ → ℕ)
    (slots : List Reservation) (r : Reservation) (metadata base size n : ℕ) (q : Request)
    (real : metadata ≢ 0) (aligned : metadata % page_size ≡ 0)
    (first_aligned : first_address metadata base size % page_size ≡ 0)
    (list_aligned : percentage size reservation_list_percentage % page_size ≡ 0) (asked : n ≢ 0)
    (few : M.align_upper n / page_size ≤ max_dword)
    (some_bytes : B.buffer_size (M.align_upper n / page_size) ≢ 0)
    (room : percentage size reservation_list_percentage
        + M.align_upper (B.buffer_size (M.align_upper n / page_size))
      ≤ size) where
  abbrev first_space : Space
  first_space = new_space percentage (r ∷ slots) metadata base size

  init-eq : init percentage (r ∷ slots) metadata base size ≡ done first_space
  unfolding init
  init-eq =
      let filled : (size == 0) ≡ false =
        ground (arith, M.align_upper_least (B.buffer_size (M.align_upper n / page_size))) in
      ground arith

  first-HasRoom :
      HasRoom
        (drawn (finish_init first_space) (M.align_upper n))
        (first_address metadata base size)
        (M.align_upper n)
        0
  unfolding finish_init claim
  first-HasRoom = record {
    real = ground arith;
    pos = omega (arith, M.align_upper_least n);
    address_aligned = first_aligned;
    size_aligned = M.align_upper_aligned n;
    unheld = tt;
    slot_free = refl;
    pages_in = few;
    some_bytes = some_bytes;
    buffer_aligned = omega arith;
    buffer_in = (C.check_bounds_iff _ _ _ _).1 (omega arith, omega arith);
  }

  -- A space is set up over metadata at a page that is not null, with at least one slot and with its
  -- first address and the end of its list at a page, and a first region of `n` bytes, not 0, is
  -- reserved and committed at an address of the space's choice. Where its pages have a bitmap of at
  -- least one byte, for which the metadata has room, both calls return, the second with success, the
  -- first address of the space and the size asked for, rounded up to pages, and the rights of the
  -- whole region are then the ones asked for.
  pub init-alloc_region :
      Returns
        (λ s.
          Returns
            (λ a.
              (a.0 ≡ success)
              × (a.1 ≡ first_address metadata base size)
              × (a.2 ≡ M.align_upper n)
              × (return_rights a.3 a.1 a.2 ≡ done (success, some q.rights)))
            (alloc_region (finish_init s) 0 n reserve_and_commit q))
        (init percentage (r ∷ slots) metadata base size)
  unfolding finish_init
  init-alloc_region =
      rw init-eq (alloc_region-return_rights (finish_init first_space) n 0 q first-HasRoom)
