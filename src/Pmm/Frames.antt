-- ===== src/Pmm/Frames.antt =====
-- The frames that `PmmReserveMemoryEx` and `PmmReleaseMemory` (src/HAL9000/src/pmm.c) hand out and take.
use good_osd_project.Prelude.{
  ℕ, ◌+◌, ◌*◌, ◌/◌, ◌%◌, ◌≡◌, ◌≢◌, ◌≤◌, ◌<◌, ◌⊎◌, inl, inr, true, false, refl, leb, if◌then◌else◌,
  arith, Bool-cases, leb→le,
}
use good_osd_project.CommonLib.{BitmapOps, page_size, max_dword, in_range}
use good_osd_project.Kernel.{done, null, Returns}
use good_osd_project.Pmm.{PmmData, reserve_memory_ex, release_memory}

-- The frames from `idx` on, `n` of them, have been taken.
pub record Took (d : PmmData) (idx n : ℕ) (d' : PmmData) : Type 0 where
  pub inside : idx + n ≤ d.bit_count
  pub were_free : (i : ℕ) → in_range idx n i ≡ true → d.allocation_bitmap i ≡ false
  pub bits :
      (i : ℕ) → d'.allocation_bitmap i ≡ (if in_range idx n i then true else d.allocation_bitmap i)
  pub count_kept : d'.bit_count ≡ d.bit_count
  pub limits_kept : d'.limits ≡ d.limits

-- What a reservation has come to.
abbrev pub Reserved : PmmData → (n min : ℕ) → ℕ × PmmData → Type 0
Reserved d n min r =
    ((r.0 ≡ null) × (r.1 ≡ d))
    ⊎ ((idx : ℕ) × (r.0 ≡ idx * page_size) × (min ≤ r.0) × Took d idx n r.1)

module _ ⦃B : BitmapOps⦄ where
  module _ (d : PmmData) (n min : ℕ) where
    abbrev idx : ℕ
    idx = B.scan_from d.allocation_bitmap d.bit_count (min / page_size) n

    taken-Took :
        idx ≢ max_dword
        → Took d idx n (record d { allocation_bitmap = B.set_bits d.allocation_bitmap idx n })
    taken-Took h =
        let (lo, hi, clear) =
          B.scan_from_sound d.allocation_bitmap d.bit_count (min / page_size) n h in
        record {
          inside = hi;
          were_free = clear;
          bits = B.set_bits_lem d.allocation_bitmap idx n;
          count_kept = refl;
          limits_kept = refl;
        }

    reserve_memory_ex-cases :
        (reserve_memory_ex d n min ≡ (null, d))
        ⊎ ((idx ≢ max_dword)
            × (min % page_size ≡ 0)
            × (reserve_memory_ex d n min ≡ (
              idx * page_size,
              record d { allocation_bitmap = B.set_bits d.allocation_bitmap idx n },
            )))
    unfolding reserve_memory_ex
    reserve_memory_ex-cases = ground arith

    -- A reservation fails, and changes nothing, or it returns the address of frames that lie in the
    -- bitmap, not below the address asked for, and that were all free; these are then taken, and every
    -- other frame is as it was.
    pub reserve_memory_ex-Reserved : Reserved d n min (reserve_memory_ex d n min)
    reserve_memory_ex-Reserved = elim reserve_memory_ex-cases [
      | inl e ↦ rw e (inl (refl, refl))
      | inr (ne, al, e) ↦
          let lo = (B.scan_from_sound d.allocation_bitmap d.bit_count (min / page_size) n ne).0 in
          rw e (inr (idx, refl, omega (arith, lo, al), taken-Took ne))
    ]

  pub Reserved-Took :
      (d d' : PmmData) (n min a : ℕ)
      → Reserved d n min (a, d')
      → a ≢ null
      → (idx : ℕ) × (a ≡ idx * page_size) × Took d idx n d'
  Reserved-Took d d' n min a (inl (e, f)) h = absurd (h e)
  Reserved-Took d d' n min a (inr (i, e, le, t)) h = (i, e, t)

  release_memory-eq :
      (d : PmmData) (idx n : ℕ)
      → idx ≤ max_dword
      → release_memory d (idx * page_size) n
        ≡ done (record d { allocation_bitmap = B.clear_bits d.allocation_bitmap idx n })
  unfolding release_memory
  release_memory-eq d idx n h =
      let e : idx * page_size / page_size ≡ idx = omega arith in
      let al : idx * page_size % page_size ≡ 0 = omega arith in ground arith

  -- Frames that have been reserved, at an address that is not null in a bitmap of at most 2^32 - 1
  -- elements, can be released by that address: no assertion fails, and each frame is taken if and
  -- only if it was before the reservation.
  pub reserve-release :
      (d : PmmData) (n min : ℕ)
      → d.bit_count ≤ max_dword
      → (reserve_memory_ex d n min).0 ≢ null
      → let r = reserve_memory_ex d n min in
        Returns
          (λ d'. (i : ℕ) → d'.allocation_bitmap i ≡ d.allocation_bitmap i)
          (release_memory r.1 r.0 n)
  reserve-release d n min small h =
      let r = reserve_memory_ex d n min in
      let (idx, e, t) = Reserved-Took d r.1 n min r.0 (reserve_memory_ex-Reserved d n min) h in
      rw (e, release_memory-eq r.1 idx n (omega (arith, t.inside)))
        (λ i.
          ground (arith, B.clear_bits_lem r.1.allocation_bitmap idx n i, t.bits i, t.were_free i))

  -- Two reservations of at least one frame, one after the other, never share a frame: where both
  -- return an address that is not null, the second range lies behind the first or before it.
  pub reserve_apart :
      (d : PmmData) (n min n' min' : ℕ)
      → 0 < n
      → 0 < n'
      → let r = reserve_memory_ex d n min in
        let r' = reserve_memory_ex r.1 n' min' in
        r.0 ≢ null → r'.0 ≢ null → (r.0 + n * page_size ≤ r'.0) ⊎ (r'.0 + n' * page_size ≤ r.0)
  reserve_apart d n min n' min' pos pos' h h' =
      let r = reserve_memory_ex d n min in
      let r' = reserve_memory_ex r.1 n' min' in
      let (i, e, t) = Reserved-Took d r.1 n min r.0 (reserve_memory_ex-Reserved d n min) h in
      let (j, f, u) =
        Reserved-Took r.1 r'.1 n' min' r'.0 (reserve_memory_ex-Reserved r.1 n' min') h' in
      let at_i = u.were_free i in
      let at_j = u.were_free j in
      let was_i = t.bits i in
      let was_j = t.bits j in
      elim (Bool-cases (leb (i + n) j)) [
        | inl le ↦ inl (omega (arith, e, f, leb→le (i + n) j le))
        | inr gt ↦ elim (Bool-cases (leb (j + n') i)) [
          | inl le ↦ inr (omega (arith, e, f, leb→le (j + n') i le))
          | inr gt' ↦ absurd (ground arith)
        ]
      ]
