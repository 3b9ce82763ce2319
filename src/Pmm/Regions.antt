-- ===== src/Pmm/Regions.antt =====
-- The memory map and the frames that `PmmInitSystem` (src/HAL9000/src/pmm.c) makes available.
use good_osd_project.Prelude.{
  ℕ, subst, ◌∙◌, ◌-◌, ◌+◌, ◌*◌, ◌/◌, ◌%◌, ◌≡◌, ◌≢◌, ◌≤◌, ◌<◌, inl, inr, true, false, Bool, not,
  ◌&&◌, ◌||◌, refl, if◌then◌else◌, arith, List, [], ◌∷◌, ◌∙◌, subst,
}
use good_osd_project.CommonLib.{
  BitmapOps, Checks, MemoryMap, PageMath, page_size, max_dword, in_range,
}
use good_osd_project.Kernel.{done, ◌>>=◌, null, Returns, Returns->>=, Returns-map}
use good_osd_project.Pmm.{
  PmmData, MemoryEntry, Limits, reserve_memory_ex, release_memory, release_entry, release_entries,
  initialize_allocation_bitmap, is_released, note_entry, note_entries, end_of, higher,
  determine_memory_limits, length,
}
use good_osd_project.Pmm.Frames.{reserve_memory_ex-Reserved}

module _ ⦃C : Checks⦄ ⦃I : MemoryMap⦄ where
  -- An upper bound of the ends of all entries.
  abbrev pub Covers : (n : ℕ) → List MemoryEntry → Type 0
  Covers n [] = Unit
  Covers n (e ∷ es) = (end_of e ≤ n) × Covers n es

  note_entry-highest :
      (l : Limits) (e : MemoryEntry)
      → ((note_entry l e).highest_present ≡ higher (end_of e) l.highest_present)
        × (l.highest_available ≤ l.highest_present
            → (note_entry l e).highest_available ≤ (note_entry l e).highest_present)
  unfolding note_entry
  note_entry-highest l e = ground arith

  note_entries_mono :
      (es : List MemoryEntry) (l : Limits) → l.highest_present ≤ (note_entries l es).highest_present
  unfolding note_entries
  note_entries_mono [] l = omega arith
  note_entries_mono (e ∷ es) l =
      ground (arith, (note_entry-highest l e).0, note_entries_mono es (note_entry l e))

  note_entries-Covers :
      (es : List MemoryEntry) (l : Limits)
      → l.highest_available ≤ l.highest_present
      → let l' = note_entries l es in
        Covers l'.highest_present es × (l'.highest_available ≤ l'.highest_present)
  unfolding note_entries
  note_entries-Covers [] l h = (tt, h)
  note_entries-Covers (e ∷ es) l h =
      let (eq, keeps) = note_entry-highest l e in
      let (rest, last) = note_entries-Covers es (note_entry l e) (keeps h) in
      ((ground (arith, eq, note_entries_mono es (note_entry l e)), rest), last)

  -- The limits of a memory map that is not empty: no entry ends beyond the highest address that is
  -- present, and the highest address that is available is at most that.
  pub determine_memory_limits-Covers :
      (regions : ℕ → ℕ) (es : List MemoryEntry)
      → length es ≢ 0
      → Returns
          (λ l. Covers l.highest_present es × (l.highest_available ≤ l.highest_present))
          (determine_memory_limits regions es)
  unfolding determine_memory_limits
  determine_memory_limits-Covers regions es some_entry = ground (
    arith,
    note_entries-Covers es
        (record {
          physical_memory_size = 0;
          highest_present = 0;
          highest_available = 0;
          number_of_entries = regions;
        })
        (omega arith),
  )

module _ ⦃B : BitmapOps⦄ ⦃C : Checks⦄ ⦃I : MemoryMap⦄ ⦃M : PageMath⦄ where
  -- The frames of an entry, as the manager counts them.
  abbrev pub in_entry : MemoryEntry → ℕ → Bool
  in_entry e i =
      is_released e && in_range (M.align_upper e.base_address / page_size) (e.size / page_size) i

  -- Whether a frame lies in usable memory above 1 MB.
  abbrev pub in_usable : List MemoryEntry → ℕ → Bool
  in_usable [] i = false
  in_usable (e ∷ es) i = in_entry e i || in_usable es i

  -- Frames have numbers that fit a `DWORD`.
  abbrev pub Fits : MemoryEntry → Type 0
  Fits e =
      is_released e ≡ true
      → (M.align_upper e.base_address / page_size ≤ max_dword) × (e.size / page_size ≤ max_dword)

  abbrev pub AllFit : List MemoryEntry → Type 0
  AllFit [] = Unit
  AllFit (e ∷ es) = Fits e × AllFit es

  -- A state of the bitmap in which exactly the frames below the count are free for which `f` holds.
  abbrev pub Freed : PmmData → (before : PmmData) → (ℕ → Bool) → Type 0
  Freed d b f =
      (d.bit_count ≡ b.bit_count)
      × ((i : ℕ) → d.allocation_bitmap i ≡ (if f i then false else b.allocation_bitmap i))

  release_entry-Freed :
      (d : PmmData) (e : MemoryEntry)
      → Fits e
      → Returns (λ d'. Freed d' d (in_entry e)) (release_entry d e)
  unfolding release_entry release_memory
  release_entry-Freed d e fits = ground (
    arith,
    fits,
    M.align_upper_aligned e.base_address,
    B.clear_bits_lem d.allocation_bitmap (M.align_upper e.base_address / page_size)
        (e.size / page_size),
  )

  pub release_entries-Freed :
      (es : List MemoryEntry) (d : PmmData)
      → AllFit es
      → Returns (λ d'. Freed d' d (in_usable es)) (release_entries d es)
  unfolding release_entries
  release_entries-Freed [] d fits = (refl, λ i. refl)
  release_entries-Freed (e ∷ es) d (fits, rest) =
      Returns->>= _ (release_entry d e) _ (release_entry-Freed d e fits) (λ d' f.
        Returns-map (release_entries d' es)
          (λ d'' g. (g.0 ∙ f.0, λ i. ground (arith, g.1 i, f.1 i)))
          (release_entries-Freed es d' rest))

  -- The bitmap before the release: every frame that it counts is taken.
  initialized-reserved :
      (d : PmmData) (frames i : ℕ)
      → frames ≤ max_dword
      → i < frames
      → let d' = record d { bit_count = frames; allocation_bitmap = B.clear } in
        ((reserve_memory_ex d' frames 0).1.bit_count ≡ frames)
        × ((reserve_memory_ex d' frames 0).1.allocation_bitmap i ≡ true)
  unfolding reserve_memory_ex
  initialized-reserved d frames i small h =
      let e =
        B.scan_from_complete B.clear frames 0 frames small (omega arith) (omega arith)
          (λ j r. B.clear_lem j) in
      ground (arith, e, B.set_bits_lem B.clear 0 frames i)

  initialized-count :
      (d : PmmData) (n min : ℕ) → (reserve_memory_ex d n min).1.bit_count ≡ d.bit_count
  unfolding reserve_memory_ex
  initialized-count d n min = ground arith

  initialize_allocation_bitmap-eq :
      (d : PmmData) (highest : ℕ) (es : List MemoryEntry)
      → highest ≢ 0
      → highest / page_size ≤ max_dword
      → let d' = record d { bit_count = highest / page_size; allocation_bitmap = B.clear } in
        initialize_allocation_bitmap d highest es ≡ (
          release_entries (reserve_memory_ex d' (highest / page_size) 0).1 es >>= λ r.
          done (B.buffer_size (highest / page_size), r))
  unfolding initialize_allocation_bitmap
  initialize_allocation_bitmap-eq d highest es real small = ground arith

  -- Of the frames below the highest address exactly those of usable memory are free.
  abbrev pub Initialized : (highest : ℕ) → List MemoryEntry → ℕ × PmmData → Type 0
  Initialized highest es r =
      (r.1.bit_count ≡ highest / page_size)
      × ((i : ℕ) → i < highest / page_size → r.1.allocation_bitmap i ≡ not (in_usable es i))

  -- The bitmap is set up for a highest address that is not 0 and a memory map whose frames have
  -- numbers that fit a `DWORD`: no assertion fails, and of the frames below the highest address
  -- exactly those are free that are among those, as the manager counts them, of a valid, usable
  -- entry which begins at 1 MB or above.
  pub initialize_allocation_bitmap-usable :
      (d : PmmData) (highest : ℕ) (es : List MemoryEntry)
      → highest ≢ 0
      → highest / page_size ≤ max_dword
      → AllFit es
      → Returns (Initialized highest es) (initialize_allocation_bitmap d highest es)
  initialize_allocation_bitmap-usable d highest es real small fits =
      let frames = highest / page_size in
      let d' = record d { bit_count = frames; allocation_bitmap = B.clear } in
      let reserved = (reserve_memory_ex d' frames 0).1 in
      rw (initialize_allocation_bitmap-eq d highest es real small) (
        Returns->>= _ (release_entries reserved es) _ (release_entries-Freed es reserved fits)
          (λ r f. (
            f.0 ∙ initialized-count d' frames 0,
            λ i h.
                let taken = (initialized-reserved d frames i small h).1 in
                f.1 i ∙ ground (arith, taken),
          )))

  -- Once the bitmap has been set up for a memory map whose frames have numbers that fit a `DWORD`,
  -- a reservation that returns an address other than null gives frames of usable memory above 1 MB
  -- alone, as the manager counts the frames of an entry.
  pub initialize-reserve :
      (d : PmmData) (highest : ℕ) (es : List MemoryEntry) (bytes : ℕ) (d' : PmmData)
      → highest ≢ 0
      → highest / page_size ≤ max_dword
      → AllFit es
      → initialize_allocation_bitmap d highest es ≡ done (bytes, d')
      → (n min i : ℕ) → (reserve_memory_ex d' n min).0 ≢ null
      → in_range ((reserve_memory_ex d' n min).0 / page_size) n i ≡ true
      → in_usable es i ≡ true
  initialize-reserve d highest es bytes d' real small fits e n min i some_address h =
      let u : Initialized highest es (bytes, d') =
        subst (Returns (Initialized highest es)) e
          (initialize_allocation_bitmap-usable d highest es real small fits) in
      elim (reserve_memory_ex-Reserved d' n min) [
        | inl (z, _) ↦ absurd (some_address z)
        | inr (idx, at, _, t) ↦
            let page : (reserve_memory_ex d' n min).0 / page_size ≡ idx = omega (arith, at) in
            let h' : in_range idx n i ≡ true = ground (arith, page) in
            let free = t.were_free i h' in ground (arith, u.1 i, t.inside, u.0, free)
      ]

-- An entry whose memory is released, of whole pages and not empty, that does not begin at a page
-- has a frame released for it that ends beyond the entry.
pub in_entry_beyond :
    ⦃B : BitmapOps⦄ ⦃C : Checks⦄ ⦃I : MemoryMap⦄ ⦃M : PageMath⦄ (e : MemoryEntry)
    → is_released e ≡ true
    → e.base_address % page_size ≢ 0
    → e.size % page_size ≡ 0
    → 0 < e.size
    → (i : ℕ) × (in_entry e i ≡ true) × (e.base_address + e.size < (i + 1) * page_size)
in_entry_beyond ⦃M = M⦄ e rel odd whole pos =
    let (lo, hi) = M.align_upper_least e.base_address in
    let al = M.align_upper_aligned e.base_address in
    (
      M.align_upper e.base_address / page_size + e.size / page_size - 1,
      ground arith,
      omega (arith, lo, hi, al),
    )
