-- ===== src/Vmm/Buffer.antt =====
-- The check of a buffer, `VmmIsBufferValid` of src/HAL9000/src/vmm.c, against the page faults that the
-- accesses to the buffer meet.
use good_osd_project.Prelude.{
  ℕ, zero, suc, ◌+◌, ◌-◌, ◌*◌, ◌/◌, ◌%◌, ◌≡◌, ◌≢◌, ◌≤◌, ◌<◌, Bool, true, false, ◌&&◌, some, none,
  get_elem?, refl, arith, ◌==◌, if◌then◌else◌, Option-cases, inl, inr, ◌⊎◌, ap, ◌∙◌,
}
use good_osd_project.CommonLib.{Checks, PageMath, BitmapOps, page_size}
use good_osd_project.Kernel.{done, success, qword}
use good_osd_project.Vm.{Space, Reservation, find}
use good_osd_project.Vm.Find.{find-Found}
use good_osd_project.Vm.Ops.{is_committed}
use good_osd_project.Vm.Access.{Access, return_rights, all_committed, can_address_be_accessed}
use good_osd_project.Vmm.{AddressBits, is_kernel_address, is_kernel_range, is_buffer_valid}

module _ ⦃C : Checks⦄ ⦃M : PageMath⦄ ⦃B : BitmapOps⦄ where
  all_committed-page :
      (r : Reservation) (n at k : ℕ)
      → all_committed r n at ≡ true
      → k < n
      → is_committed r (at + k * page_size) ≡ true
  unfolding all_committed
  all_committed-page r zero at k h lt = elim lt [ ]
  all_committed-page r (suc n) at zero h lt =
      let e : at + 0 * page_size ≡ at = omega arith in rw e (ground arith)
  all_committed-page r (suc n) at (suc k) h lt =
      let e : at + suc k * page_size ≡ at + page_size + k * page_size = omega arith in
      rw e (all_committed-page r n (at + page_size) k (ground arith) (omega arith))

module _ ⦃C : Checks⦄ ⦃M : PageMath⦄ ⦃B : BitmapOps⦄ ⦃A : AddressBits⦄ where
  -- The buffer lies in a reservation with the rights, whose pages are committed at the buffer's start
  -- and at each further page size behind it; neither end is the kernel's where that matters.
  pub record Sound (s : Space) (buffer size rights : ℕ) (kernel_access : Bool) : Type 0 where
    pub slot : ℕ
    pub region : Reservation
    pub found : find s.reservations buffer size ≡ some slot
    pub there : get_elem? s.reservations slot ≡ some region
    pub lower : region.start_va ≤ buffer
    pub upper : buffer + size ≤ region.start_va + region.size
    pub allowed : C.is_flag_on region.page_rights rights ≡ true
    pub committed :
        (k : ℕ) → k * page_size < size → is_committed region (buffer + k * page_size) ≡ true
    pub user_start : kernel_access ≡ false → is_kernel_address buffer ≡ false
    pub user_end : kernel_access ≡ false → is_kernel_address (qword (buffer + (size - 1))) ≡ false

  module _ (s : Space) (buffer size rights : ℕ) (kernel_access : Bool) where
    is_buffer_valid-found :
        is_buffer_valid buffer size rights s kernel_access ≡ done success
        → (i : ℕ) × (find s.reservations buffer size ≡ some i)
    unfolding is_buffer_valid is_kernel_range return_rights
    is_buffer_valid-found h = elim (Option-cases (find s.reservations buffer size)) [
      | inl e ↦ absurd (ground arith)
      | inr e ↦ e
    ]

    is_buffer_valid-region :
        (i : ℕ) (r : Reservation)
        → find s.reservations buffer size ≡ some i
        → get_elem? s.reservations i ≡ some r
        → is_buffer_valid buffer size rights s kernel_access ≡ done success
        → (all_committed r ((size + (page_size - 1)) / page_size) buffer ≡ true)
          × (C.is_flag_on r.page_rights rights ≡ true)
          × (kernel_access ≡ false → is_kernel_address buffer ≡ false)
          × (kernel_access ≡ false → is_kernel_address (qword (buffer + (size - 1))) ≡ false)
    unfolding is_buffer_valid is_kernel_range return_rights
    is_buffer_valid-region i r e f h =
        (ground arith, ground arith, (λ k. ground arith), (λ k. ground arith))

    pub is_buffer_valid-Sound :
        is_buffer_valid buffer size rights s kernel_access ≡ done success
        → Sound s buffer size rights kernel_access
    is_buffer_valid-Sound h =
        let (i, e) = is_buffer_valid-found h in
        let (r, f, u, hold) = find-Found s.reservations buffer size i e in
        let (full, on, start_out, end_out) = is_buffer_valid-region i r e f h in
        let (lo, hi) = (C.check_bounds_iff buffer size r.start_va r.size).0 hold in
        record {
          slot = i;
          region = r;
          found = e;
          there = f;
          lower = lo;
          upper = hi;
          allowed = on;
          committed = λ k lt. all_committed-page r _ buffer k full (omega arith);
          user_start = start_out;
          user_end = end_out;
        }

    module _ (i : ℕ) (r : Reservation) (e : find s.reservations buffer size ≡ some i)
        (f : get_elem? s.reservations i ≡ some r) (whole : r.start_va % page_size ≡ 0)
        (known : Bool) where
      abbrev granted : ℕ → Access
      granted a = record {
        memory_rights = r.page_rights;
        uncacheable = r.uncacheable;
        backing_file = r.backing_file;
        file_offset = if r.backing_file == 0 then 0 else M.align_lower (a - r.start_va);
      }

      -- A page fault on the byte `a` of the buffer, where a search for it finds the buffer's
      -- reservation and it is not in the space's own metadata.
      access-eq :
          (a : ℕ)
          → a ≢ 0
          → find s.reservations a 1 ≡ some i
          → C.check_bounds a 1 s.reservation_list_address s.reserved_area_size ≡ false
          → can_address_be_accessed s known a rights
            ≡ done (
                if is_committed r a && C.is_flag_on r.page_rights rights
                then some (granted a)
                else none)
      unfolding can_address_be_accessed
      access-eq a real here outside = ground arith

      region_starts : r.start_va ≤ buffer
      region_starts =
          let (r', f', u, hold) = find-Found s.reservations buffer size i e in
          let same : r' ≡ r = cc in
          rw same at (((C.check_bounds_iff buffer size r'.start_va r'.size).0 hold).0)

      same_page :
          (a b : ℕ)
          → r.start_va ≤ a
          → r.start_va ≤ b
          → a / page_size ≡ b / page_size
          → is_committed r a ≡ is_committed r b
      unfolding is_committed
      same_page a b la lb p =
          let n : (a - r.start_va) / page_size ≡ (b - r.start_va) / page_size = omega arith in
          ap (λ (k : ℕ). r.commit_bitmap k) n

      -- A buffer that begins at a page, in a reservation that does, is found valid. Then a page fault
      -- on any byte of it is allowed for the rights that were asked for, if a search for the byte finds
      -- that reservation and the byte is not null and not in the space's own metadata.
      pub is_buffer_valid-access :
          buffer % page_size ≡ 0
          → is_buffer_valid buffer size rights s kernel_access ≡ done success
          → (a : ℕ) → buffer ≤ a
          → a < buffer + size
          → a ≢ 0
          → find s.reservations a 1 ≡ some i
          → C.check_bounds a 1 s.reservation_list_address s.reserved_area_size ≡ false
          → (granted : Access) × (can_address_be_accessed s known a rights ≡ done (some granted))
      is_buffer_valid-access aligned valid a lo hi real here outside =
          let (full, on, start_out, end_out) = is_buffer_valid-region i r e f valid in
          let k = (a - buffer) / page_size in
          let page = all_committed-page r _ buffer k full (omega arith) in
          let here_too : is_committed r a ≡ true =
            same_page a (buffer + k * page_size) (omega (arith, region_starts))
              (omega (arith, region_starts)) (omega arith)
            ∙ page in
          (granted a, access-eq a real here outside ∙ rw (here_too, on) refl)

      -- The check of a buffer that begins within a page and runs into the next looks at the first of
      -- the two alone, if the buffer is not longer than a page: where the first page is committed and
      -- has the rights, for the kernel or with both ends outside the kernel's half, the check succeeds,
      -- and a page fault on the buffer's last byte is refused all the same, if the second page is not
      -- committed, a search for the byte finds the buffer's reservation, and it is not in the space's
      -- own metadata.
      pub is_buffer_valid-overlooks :
          buffer ≢ 0
          → size ≢ 0
          → size ≤ page_size
          → page_size < buffer % page_size + size
          → (kernel_access ≡ true) ⊎ (is_kernel_range buffer size ≡ done false)
          → C.is_flag_on r.page_rights rights ≡ true
          → is_committed r buffer ≡ true
          → is_committed r (buffer + (size - 1)) ≡ false
          → find s.reservations (buffer + (size - 1)) 1 ≡ some i
          → C.check_bounds (buffer + (size - 1)) 1 s.reservation_list_address s.reserved_area_size
            ≡ false
          → (is_buffer_valid buffer size rights s kernel_access ≡ done success)
            × (can_address_be_accessed s known (buffer + (size - 1)) rights ≡ done none)
      unfolding is_buffer_valid return_rights all_committed
      is_buffer_valid-overlooks real filled short over who on first second here outside =
          let rounds : (size + (page_size - 1)) / page_size ≡ 1 = omega arith in
          let one : all_committed r ((size + (page_size - 1)) / page_size) buffer ≡ true =
            rw rounds (rw first refl) in
          (ground (arith, one), access-eq _ (omega arith) here outside ∙ rw second refl)
