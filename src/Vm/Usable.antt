-- ===== src/Vm/Usable.antt =====
-- From `VmReservationSpaceAllocRegion` to the page faults of the region and its release,
-- src/HAL9000/src/vm_reservation_space.c.
use good_osd_project.Prelude.{
  ◌-◌, ◌<◌, ◌≤◌, refl, ℕ, ◌+◌, ◌≡◌, ◌≢◌, Bool, true, false, some, arith, get_elem?, ◌==◌,
  if◌then◌else◌,
}
use good_osd_project.CommonLib.{Checks, PageMath, BitmapOps}
use good_osd_project.Kernel.{done, Returns, success, qword}
use good_osd_project.Vm.{Reservation, Space, find, holds}
use good_osd_project.Vm.Find.{NotHeld, find-claim}
use good_osd_project.Vm.Ops.{
  AllocType, Request, change_states, alloc_region, is_committed, commit_pages,
}
use good_osd_project.Vm.Alloc.{
  HasRoom, committed, committed_slot, reserve_range-eq, commit_range-eq, return_rights-committed,
  committed_list, read_slot, committed_slot-keeps, is_committed-page,
}
use good_osd_project.Vm.Access.{return_rights, can_address_be_accessed}

abbrev pub reserve_and_commit : AllocType
reserve_and_commit = record { reserve = true; commit = true }

module _ ⦃C : Checks⦄ ⦃M : PageMath⦄ ⦃B : BitmapOps⦄ where
  change_states-both :
      (s : Space) (address size slot : ℕ) (q : Request) (h : HasRoom s address size slot)
      → change_states s address size reserve_and_commit q
        ≡ done (success, committed s address size slot q h)
  unfolding change_states
  change_states-both s address size slot q h =
      rw (reserve_range-eq s address size slot q h) (commit_range-eq s address size slot q h)

  can_address_be_accessed-held :
      (s : Space) (known : Bool) (a i : ℕ) (r : Reservation)
      → a ≢ 0
      → C.check_bounds a 1 s.reservation_list_address s.reserved_area_size ≡ false
      → find s.reservations a 1 ≡ some i
      → get_elem? s.reservations i ≡ some r
      → is_committed r a ≡ true
      → can_address_be_accessed s known a r.page_rights
        ≡ done (
            some (record {
              memory_rights = r.page_rights;
              uncacheable = r.uncacheable;
              backing_file = r.backing_file;
              file_offset = if r.backing_file == 0 then 0 else M.align_lower (a - r.start_va);
            }))
  unfolding can_address_be_accessed
  can_address_be_accessed-held s known a i r real out found there full =
      ground (arith, C.is_flag_on_refl r.page_rights)

  -- The space once the next address has been drawn.
  abbrev pub drawn : Space → ℕ → Space
  drawn s n = record s { free_virtual_address_pointer = qword (s.free_virtual_address_pointer + n) }

  module _ (s : Space) (size slot : ℕ) (q : Request) where
    abbrev pub here : ℕ
    here = s.free_virtual_address_pointer

    abbrev pub mapped : ℕ
    mapped = M.align_upper size

    module _ (h : HasRoom (drawn s mapped) here mapped slot) where
      alloc_region-eq :
          alloc_region s 0 size reserve_and_commit q
          ≡ done (success, here, mapped, committed (drawn s mapped) here mapped slot q h)
      unfolding alloc_region
      alloc_region-eq =
          let asked : (size == 0) ≡ false =
            ground (arith, h.pos, h.size_aligned, M.align_upper_least size) in
          rw asked (rw (change_states-both (drawn s mapped) here mapped slot q h) refl)

      -- A region is reserved and committed at an address of the space's choice, with room for it in
      -- the list and in the metadata and no reservation that holds it yet: the call returns
      -- success, the address is the space's next one, the size is the one asked for, rounded up to
      -- pages, and the rights of the whole region are then the ones asked for.
      pub alloc_region-return_rights :
          Returns
            (λ r.
              (r.0 ≡ success)
              × (r.1 ≡ here)
              × (r.2 ≡ mapped)
              × (return_rights r.3 r.1 r.2 ≡ done (success, some q.rights)))
            (alloc_region s 0 size reserve_and_commit q)
      alloc_region-return_rights =
          rw alloc_region-eq
            (refl, refl, refl, return_rights-committed (drawn s mapped) here mapped slot q h)

      module _ (a : ℕ) (lo : here ≤ a) (hi : a < here + mapped)
          (alone : NotHeld s.reservations a 1) where
        holds-page : holds (committed_slot (drawn s mapped) here mapped slot q h) a 1 ≡ true
        holds-page =
            (C.check_bounds_iff a 1 _ _).1
              (omega (arith, committed_slot-keeps (drawn s mapped) here mapped slot q h))

        find-page :
            find (committed (drawn s mapped) here mapped slot q h).reservations a 1 ≡ some slot
        find-page = rw (committed_list (drawn s mapped) here mapped slot q h) (
            find-claim s.reservations a 1 slot _ h.slot_free alone
              (committed_slot-keeps (drawn s mapped) here mapped slot q h).0 holds-page)

        -- A region is reserved and committed at an address of the space's choice, with room for it
        -- in the list and in the metadata and no reservation that holds it yet. An access with the
        -- rights asked for to any byte of the region that is not null, not in the space's metadata
        -- and not in an older reservation as well is then allowed, with the region's rights,
        -- caching and file.
        pub alloc_region-access :
            (known : Bool)
            → a ≢ 0
            → C.check_bounds a 1 s.reservation_list_address s.reserved_area_size ≡ false
            → Returns
                (λ r.
                  can_address_be_accessed r.3 known a q.rights
                  ≡ done (
                      some (record {
                        memory_rights = q.rights;
                        uncacheable = q.uncached;
                        backing_file = q.file;
                        file_offset = if q.file == 0 then 0 else M.align_lower (a - here);
                      })))
                (alloc_region s 0 size reserve_and_commit q)
        unfolding commit_pages
        alloc_region-access known real out = rw alloc_region-eq (
            can_address_be_accessed-held (committed (drawn s mapped) here mapped slot q h) known a
              slot (committed_slot (drawn s mapped) here mapped slot q h) real out find-page
              (rw (committed_list (drawn s mapped) here mapped slot q h) (
                read_slot (drawn s mapped) here mapped slot q h
                  (committed_slot (drawn s mapped) here mapped slot q h)))
              (is_committed-page (drawn s mapped) here mapped slot q h a lo hi))
