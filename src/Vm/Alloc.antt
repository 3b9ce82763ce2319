-- ===== src/Vm/Alloc.antt =====
-- What `VmReservationSpaceAllocRegion` (src/HAL9000/src/vm_reservation_space.c) promises of a region.
use good_osd_project.Prelude.{
  zero, suc, ◌-◌, ◌*◌, ◌<◌, set-set, get_elem?-set_self, get_elem?, ap, some, refl, ℕ, ◌+◌, ◌/◌,
  ◌%◌, ◌≡◌, ◌≢◌, ◌≤◌, true, some, arith, set, ◌||◌, get_elem?, ◌<◌, get_elem?-set_self, ◌*◌, suc,
}
use good_osd_project.CommonLib.{Checks, PageMath, BitmapOps, page_size, max_dword}
use good_osd_project.Kernel.{done, success}
use good_osd_project.Vm.{used, Reservation, Space, find, claim, holds}
use good_osd_project.Vm.Access.{all_committed, return_rights}
use good_osd_project.Vm.Find.{NotHeld, find-claim, find-none_iff, claim-length}
use good_osd_project.Vm.Ops.{
  Request, set_slot, initialize, commit_pages, reserve_range, commit_range, is_committed,
}

module _ ⦃C : Checks⦄ ⦃M : PageMath⦄ ⦃B : BitmapOps⦄ where
  -- A space has room for a range: no reservation holds it, a slot can be claimed, and the buffer for
  -- its bitmap lies in the metadata area.
  pub record HasRoom (s : Space) (address size slot : ℕ) : Type 0 where
    pub real : address ≢ 0
    pub pos : size ≢ 0
    pub address_aligned : address % page_size ≡ 0
    pub size_aligned : size % page_size ≡ 0
    pub unheld : NotHeld s.reservations address size
    pub slot_free : (claim s.reservations).0 ≡ some slot
    pub pages_in : size / page_size ≤ max_dword
    pub some_bytes : B.buffer_size (size / page_size) ≢ 0
    pub buffer_aligned : s.free_bitmap_address % page_size ≡ 0
    pub buffer_in :
        C.check_bounds s.free_bitmap_address
          (M.align_upper (B.buffer_size (size / page_size)))
          s.reservation_list_address
          s.reserved_area_size
        ≡ true

  module _ (s : Space) (address size slot : ℕ) (q : Request) (h : HasRoom s address size slot) where
    -- The slot of the reservation, before a page of it is committed.
    abbrev pub reserved_slot : Reservation
    reserved_slot = record {
      start_va = address;
      size = size;
      page_rights = q.rights;
      state = used;
      uncacheable = q.uncached;
      backing_file = q.file;
      commit_bitmap = B.clear;
      bitmap_buffer = s.free_bitmap_address;
      bitmap_size = B.buffer_size (size / page_size);
    }

    abbrev pub reserved : Space
    reserved = record s {
      reservations = set (claim s.reservations).1 slot reserved_slot;
      overrun = s.overrun || (claim s.reservations).2;
      free_bitmap_address =
          s.free_bitmap_address + M.align_upper (B.buffer_size (size / page_size));
    }

    holds_self : holds reserved_slot address size ≡ true
    holds_self = (C.check_bounds_iff address size address size).1 (omega arith)

    initialize-eq :
        (s' : Space)
        → s'.free_bitmap_address ≡ s.free_bitmap_address
        → s'.reservation_list_address ≡ s.reservation_list_address
        → s'.reserved_area_size ≡ s.reserved_area_size
        → initialize s' address size q slot
          ≡ done (record (set_slot s' slot reserved_slot) {
            free_bitmap_address =
                s'.free_bitmap_address + M.align_upper (B.buffer_size (size / page_size));
          })
    unfolding initialize
    initialize-eq s' e f g = ground (arith, h.pages_in, h.some_bytes, h.buffer_aligned, h.buffer_in)

    pub reserve_range-eq : reserve_range s address size q ≡ done (success, reserved)
    unfolding reserve_range
    reserve_range-eq = ground (
      arith,
      h.real,
      h.pos,
      h.address_aligned,
      h.size_aligned,
      (find-none_iff s.reservations address size).1 h.unheld,
      h.slot_free,
      initialize-eq
          (record s {
            reservations = (claim s.reservations).1;
            overrun = s.overrun || (claim s.reservations).2;
          })
          refl refl refl,
    )

    find-reserved : find reserved.reservations address size ≡ some slot
    find-reserved =
        find-claim s.reservations address size slot reserved_slot h.slot_free h.unheld refl
          holds_self

    abbrev pub committed_slot : Reservation
    committed_slot = commit_pages reserved_slot address size

    abbrev pub committed : Space
    committed = set_slot reserved slot committed_slot

    pub read_slot :
        (r : Reservation) → get_elem? (set (claim s.reservations).1 slot r) slot ≡ some r
    read_slot r =
        get_elem?-set_self (claim s.reservations).1 slot r
          (claim-length s.reservations slot h.slot_free)

    pub commit_range-eq : commit_range reserved address size q ≡ done (success, committed)
    unfolding commit_range
    commit_range-eq = ground (
      arith,
      h.real,
      h.pos,
      h.address_aligned,
      h.size_aligned,
      find-reserved,
      read_slot reserved_slot,
    )

    pub committed_list : committed.reservations ≡ set (claim s.reservations).1 slot committed_slot
    committed_list = set-set (claim s.reservations).1 slot reserved_slot committed_slot

    pub committed_slot-keeps :
        (committed_slot.state ≡ used)
        × (committed_slot.page_rights ≡ q.rights)
        × (committed_slot.start_va ≡ address)
        × (committed_slot.size ≡ size)
        × (committed_slot.uncacheable ≡ q.uncached)
    unfolding commit_pages
    committed_slot-keeps = (refl, refl, refl, refl, refl)

    holds-committed : holds committed_slot address size ≡ true
    unfolding commit_pages
    holds-committed = holds_self

    find-committed : find committed.reservations address size ≡ some slot
    find-committed = rw committed_list (
        find-claim s.reservations address size slot committed_slot h.slot_free h.unheld
          committed_slot-keeps.0 holds-committed)

    -- Every page of the range is committed.
    pub is_committed-page :
        (a : ℕ) → address ≤ a → a < address + size → is_committed committed_slot a ≡ true
    unfolding is_committed commit_pages
    is_committed-page a lo hi = ground (
      arith,
      B.set_bits_lem B.clear ((address - address) / page_size) (size / page_size)
          ((a - address) / page_size),
      h.size_aligned,
    )

    all_committed-range :
        (n a : ℕ)
        → address ≤ a
        → a % page_size ≡ 0
        → a + n * page_size ≤ address + size
        → all_committed committed_slot n a ≡ true
    unfolding all_committed
    all_committed-range zero a lo al hi = refl
    all_committed-range (suc n) a lo al hi =
        ground (arith, is_committed-page a lo (omega arith), all_committed-range n (a + page_size))

    pub return_rights-committed :
        return_rights committed address size ≡ done (success, some q.rights)
    unfolding return_rights
    return_rights-committed = ground (
      arith,
      h.real,
      h.pos,
      find-committed,
      ap (λ l. get_elem? l slot) committed_list,
      read_slot committed_slot,
      committed_slot-keeps,
      all_committed-range ((size + (page_size - 1)) / page_size) address (omega arith)
          h.address_aligned (omega (arith, h.size_aligned)),
    )
