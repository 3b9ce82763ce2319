-- ===== src/Paging/RoundTrip.antt =====
-- `VmmMapMemoryInternal` and then `VmmUnmapMemoryEx` of src/HAL9000/src/vmm.c, on the same range.
use good_osd_project.Prelude.{
  ℕ, zero, suc, ◌+◌, ◌-◌, ◌*◌, ◌%◌, ◌^◌, ◌≡◌, ◌≤◌, Bool, true, List, ◌∷◌, sym, ◌∙◌, Option, none,
  some, refl, arith, ap, inl, inr, Bool-cases, ◌⊎◌, ◌&&◌, leb, ltb, ◌⊎◌, inl, leb,
}
use good_osd_project.CommonLib.{Checks, page_size}
use good_osd_project.Kernel.{Returns, Returns-map, Returns->>=, ◌>>=◌}
use good_osd_project.Paging.Entries.{PteOps}
use good_osd_project.Paging.{
  Tables, MapContext, PatIndices, pages, map_memory_internal, unmap_memory_ex,
}
use good_osd_project.Paging.Tree.{Tree}
use good_osd_project.Paging.Pages.{entry_of, InRange}
use good_osd_project.Paging.Range.{MapsRange}
use good_osd_project.Paging.Clear.{UnmapsRange, freed_range}
use good_osd_project.Paging.Translate.{
  Agree, IsPage, IsRange, Agree-of, entry-address, map_memory-MapsRange, unmap_memory-UnmapsRange,
}

-- The `n` frames from `pa` on, put before a list one by one.
abbrev pub frames_from : (n pa : ℕ) → List ℕ → List ℕ
frames_from zero pa l = l
frames_from (suc n) pa l = frames_from n (pa + page_size) (pa ∷ l)

dec_range : (va n a : ℕ) → a % page_size ≡ 0 → InRange va n a ⊎ (¬ InRange va n a)
dec_range va n a p = elim (Bool-cases (leb va a && ltb a (va + n * page_size))) [
  | inl h ↦ inl (p, ground arith, ground arith)
  | inr h ↦ inr (λ i. ground arith)
]

module _ ⦃P : PteOps⦄ where
  -- The pages of a range whose entries map consecutive frames give these frames back.
  freed_frames :
      (f : ℕ → Option ℕ) (n va pa : ℕ) (l : List ℕ)
      → va % page_size ≡ 0
      → ((a : ℕ)
          → InRange va n a
          → (e : ℕ) × (f a ≡ some e) × (P.pte_physical_address e ≡ pa + (a - va)))
      → freed_range true f n va l ≡ frames_from n pa l
  freed_frames f zero va pa l p h = refl
  freed_frames f (suc n) va pa l p h =
      let (e, there, address) = h va (omega arith) in
      let same : P.pte_physical_address e ≡ pa = omega arith in
      rw (there, same)
        (freed_frames f n (va + page_size) (pa + page_size) (pa ∷ l) (omega arith) (λ a i.
          let (e', there', address') = h a (omega arith) in (e', there', address' ∙ omega arith)))

  module _ ⦃C : Checks⦄ (pat : PatIndices) (c : MapContext) {s : Tables} (T : Tree s) (size : ℕ)
      (range : IsRange c.virtual_address_base size)
      (aligned : c.physical_address_base % page_size ≡ 0)
      (small : c.physical_address_base + size ≤ 2 ^ 52)
      (room : s.current_index + 3 * pages size ≤ s.number_of_frames)
      (free : (a : ℕ) → InRange c.virtual_address_base (pages size) a → entry_of s a ≡ none) where
    -- Every page ends as it began, in the range and outside.
    module _ {s' s'' : Tables} (M : MapsRange pat c T c.virtual_address_base (pages size) s')
        (U : UnmapsRange true M.tree c.virtual_address_base (pages size) s'') where
      entry_restored : (b : ℕ) → IsPage b → entry_of s'' b ≡ entry_of s b
      entry_restored b p = elim (dec_range c.virtual_address_base (pages size) b p.0) [
        | inl i ↦ U.inside b i ∙ sym (free b i)
        | inr d ↦ U.outside b p.0 p.2 d ∙ M.outside b p.0 p.2 d
      ]

      frames_restored :
          s'.released ≡ s.released
          → s''.released ≡ frames_from (pages size) c.physical_address_base s.released
      frames_restored e =
          U.freed
          ∙ ap
              (λ (l : List ℕ). freed_range true (entry_of s') (pages size) c.virtual_address_base l)
              e
          ∙ freed_frames (entry_of s') (pages size) c.virtual_address_base c.physical_address_base
              s.released range.0
              (λ a i.
                let (old, there) = M.inside a i in
                (
                  _,
                  there,
                  entry-address pat c T size range aligned small room (λ b j. inr (free b j)) old a
                      i,
                ))

    -- A range of whole pages of which none is mapped, not empty, without the null page and within the
    -- canonical addresses, is mapped to physical memory that begins at a page and ends below 2^52, in
    -- a tree of tables with three frames left for each page, and is then unmapped with the release of
    -- its memory: both calls return, every page, of the range or not, is translated as at first, and
    -- the frames given back are those that the range was mapped to, in order.
    pub map_memory-unmap_memory :
        (b : ℕ) (ca cd : Bool)
        → IsPage b
        → Returns
            (λ s''.
              Tree s''
              × Agree s s'' b ca cd
              × (s''.released ≡ frames_from (pages size) c.physical_address_base s.released))
            (map_memory_internal pat s size c >>= λ s'.
              unmap_memory_ex s' s'.base_physical_address c.virtual_address_base size true)
    map_memory-unmap_memory b ca cd p =
        Returns->>= {A = Tables} {P = MapsRange pat c T c.virtual_address_base (pages size)}
          (λ s''.
            Tree s''
            × Agree s s'' b ca cd
            × (s''.released ≡ frames_from (pages size) c.physical_address_base s.released))
          (map_memory_internal pat s size c)
          (λ s'. unmap_memory_ex s' s'.base_physical_address c.virtual_address_base size true)
          (map_memory-MapsRange pat c T size range aligned small room (λ a i. inr (free a i)))
          (λ s' M.
            Returns-map {A = Tables}
              {P = UnmapsRange true M.tree c.virtual_address_base (pages size)}
              (unmap_memory_ex s' s'.base_physical_address c.virtual_address_base size true)
              (λ s'' U. (
                U.tree,
                Agree-of T U.tree b ca cd p (entry_restored M U b p),
                frames_restored M U M.kept_frames,
              ))
              (unmap_memory-UnmapsRange M.tree c.virtual_address_base size range true))
