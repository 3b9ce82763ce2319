-- ===== src/Vm/Release.antt =====
-- What `VmReservationSpaceFreeRegion` (src/HAL9000/src/vm_reservation_space.c) takes away.
use good_osd_project.Prelude.{
  ℕ, zero, suc, ◌^◌, ◌*◌, ◌+◌, ◌-◌, ◌/◌, ◌%◌, ◌≡◌, ◌≢◌, ◌≤◌, ◌<◌, Bool, false, none, some, List, [],
  ◌∷◌, arith, get_elem?, set, refl, if◌then◌else◌, ◌==◌, leb, not, ◌&&◌, true, get_elem?-set_self,
  length,
}
use good_osd_project.CommonLib.{Checks, PageMath, BitmapOps, page_size, max_dword, in_range}
use good_osd_project.Kernel.{done, Returns, qword}
use good_osd_project.Vm.{Reservation, Space, find}
use good_osd_project.Vm.Ops.{set_slot, decommit_pages, is_committed}
use good_osd_project.Vm.Access.{decommit, free_region, can_address_be_accessed, access_memory}

module _ ⦃C : Checks⦄ where
  -- A slot that keeps its state and its range is found as before.
  find-set :
      (rs : List Reservation) (i a n : ℕ) (r r' : Reservation)
      → get_elem? rs i ≡ some r
      → r'.state ≡ r.state
      → r'.start_va ≡ r.start_va
      → r'.size ≡ r.size
      → find (set rs i r') a n ≡ find rs a n
  unfolding find
  find-set [] i a n r r' g e f h = refl
  find-set (x ∷ rs) zero a n r r' g e f h = ground arith
  find-set (x ∷ rs) (suc i) a n r r' g e f h = ground (arith, find-set rs i a n r r' g e f h)

  get_elem?-length :
      (rs : List Reservation) (i : ℕ) (r : Reservation) → get_elem? rs i ≡ some r → i < length rs
  get_elem?-length [] i r e = ground arith
  get_elem?-length (x ∷ rs) zero r e = ground arith
  get_elem?-length (x ∷ rs) (suc i) r e = ground (arith, get_elem?-length rs i r e)

module _ ⦃C : Checks⦄ ⦃M : PageMath⦄ ⦃B : BitmapOps⦄ where
  module _ (s : Space) (address size i : ℕ) (r : Reservation)
      (found : find s.reservations address 1 ≡ some i)
      (slot : get_elem? s.reservations i ≡ some r) where
    -- The range that a call decommits, from the page of the address on.
    abbrev pub from : ℕ
    from = M.align_lower address

    abbrev pub bytes : ℕ
    bytes = M.align_upper (size + (address - from))

    -- The reservation without the pages of the range.
    abbrev pub cleared : Reservation
    cleared = record r {
      commit_bitmap =
          B.clear_bits r.commit_bitmap ((from - r.start_va) / page_size) (bytes / page_size);
    }

    module _ (lo : r.start_va ≤ from) (below : from < 2 ^ 64) (near : from - r.start_va < 2 ^ 44)
        (few : size + (address - from) ≤ max_dword * page_size) where
      decommit_pages-eq : from ≢ 0 → size ≢ 0 → decommit_pages r from bytes ≡ done cleared
      unfolding decommit_pages
      decommit_pages-eq real some_bytes =
          let (up, least) = M.align_upper_least (size + (address - from)) in
          let whole = M.align_upper_aligned (size + (address - from)) in
          let page = M.align_lower_aligned address in
          let i : qword (from + 2 ^ 64 - r.start_va) ≡ from - r.start_va = omega arith in
          let p : (bytes / page_size ≤ max_dword) × (bytes ≢ 0) = (omega arith, λ e. omega arith) in
          let q : (from - r.start_va) / page_size ≤ max_dword = omega arith in
          let t : not (from == 0)
                && not (bytes == 0)
                && from % page_size == 0
                && bytes % page_size == 0
              ≡ true =
            ground (arith, whole, page) in
          let t1 : leb (bytes / page_size) max_dword ≡ true = ground arith in
          let t2 : leb ((from - r.start_va) / page_size) max_dword ≡ true = ground arith in
          rw (t, i, t1, t2) refl

      free_region-eq :
          from ≢ 0
          → size ≢ 0
          → free_region s address size decommit ≡ done (from, bytes, none, set_slot s i cleared)
      unfolding free_region
      free_region-eq real some_bytes =
          let z : qword (size + (address - from)) ≡ size + (address - from) = omega arith in
          let a : address ≢ 0 = λ e. real (omega (arith, M.align_lower_offset address)) in
          let d = decommit_pages-eq real some_bytes in ground (arith, z, d)

    module _ (b : ℕ) (found_b : find s.reservations b 1 ≡ some i)
        (start_aligned : r.start_va % page_size ≡ 0) (lo : r.start_va ≤ from)
        (lo_b : r.start_va ≤ b) where
      is_committed-cleared :
          is_committed cleared b ≡ (if in_range from bytes b then false else is_committed r b)
      unfolding is_committed
      is_committed-cleared = ground (
        arith,
        B.clear_bits_lem r.commit_bitmap ((from - r.start_va) / page_size) (bytes / page_size)
            ((b - r.start_va) / page_size),
        M.align_lower_aligned address,
        M.align_upper_aligned (size + (address - from)),
      )

      access-cleared :
          (rights : ℕ)
          → access_memory (set_slot s i cleared) b rights
            ≡ (if in_range from bytes b then done none else access_memory s b rights)
      unfolding access_memory
      access-cleared rights = ground (
        arith,
        find-set s.reservations i b 1 r cleared slot refl refl refl,
        get_elem?-set_self s.reservations i cleared (get_elem?-length s.reservations i r slot),
        is_committed-cleared,
      )

      -- Pages of a reservation that begins at a page are decommitted by an address, not of the null
      -- page and less than 2^44 bytes behind the beginning, and a size that is not 0 and that, with
      -- the address's offset in its page, gives no more pages than a `DWORD` can count: the call
      -- returns, and from then on an access to an address that a search finds in this reservation,
      -- outside the metadata, is refused within the range, from the page of the address on and
      -- rounded up to pages; outside the range the answer is the one given before the call.
      pub decommit-access :
          (known : Bool) (rights : ℕ)
          → from ≢ 0
          → from < 2 ^ 64
          → from - r.start_va < 2 ^ 44
          → size ≢ 0
          → size + (address - from) ≤ max_dword * page_size
          → b ≢ 0
          → C.check_bounds b 1 s.reservation_list_address s.reserved_area_size ≡ false
          → Returns
              (λ res. can_address_be_accessed res.3 known b rights ≡ (
                if in_range from bytes b
                then done none
                else can_address_be_accessed s known b rights))
              (free_region s address size decommit)
      unfolding can_address_be_accessed
      decommit-access known rights real below near some_bytes few real_b out =
          rw (free_region-eq lo below near few real some_bytes)
            (ground (arith, access-cleared rights))
