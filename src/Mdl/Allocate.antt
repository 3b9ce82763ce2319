-- ===== src/Mdl/Allocate.antt =====
-- `MdlAllocateEx` (src/HAL9000/src/mdl.c) describes the buffer that it is given.
use good_osd_project.Prelude.{
  refl, ℕ, zero, suc, ◌+◌, ◌-◌, ◌*◌, ◌/◌, ◌%◌, ◌^◌, ◌≡◌, ◌≢◌, ◌≤◌, ◌<◌, ◌∙◌, sym, ap, Bool, true,
  Option, none, some, List, ◌∷◌, ltb, length, arith, Bool-cases, inl, inr,
}
use good_osd_project.CommonLib.{PageMath, page_size}
use good_osd_project.Kernel.{Returns-done, done, dword, Returns}
use good_osd_project.Mdl.{Pair, Mdl, fill_loop, allocate}
use good_osd_project.Mdl.Coverage.{byte_at, pages, Mapped, Wrote, fill_loop-Wrote, IsMaximal}

module _ (translate : ℕ → ℕ) where
  -- The addresses of a page are mapped together.
  abbrev pub IsPaged : Type 0
  IsPaged =
      (a d : ℕ)
      → a % page_size + d < page_size
      → translate a ≢ 0
      → translate (a + d) ≡ translate a + d

  module _ (paged : IsPaged) where
    byte_at-pages :
        (r at j : ℕ)
        → at % page_size ≡ 0
        → Mapped translate r at
        → j < r * page_size
        → byte_at (pages translate r at) j ≡ some (translate (at + j))
    unfolding byte_at
    byte_at-pages zero at j al m h = absurd (omega arith)
    byte_at-pages (suc r) at j al (real, m) h = elim (Bool-cases (ltb j page_size)) [
      | inl e ↦ rw e (ap some (sym (paged at j (ground arith) real)))
      | inr e ↦ rw e (
          byte_at-pages r (at + page_size) (j - page_size) (omega arith) m (ground arith)
          ∙ ap (λ n. some (translate n)) (ground arith))
    ]

    module _ ⦃M : PageMath⦄ (va len : ℕ) where
      abbrev offset : ℕ
      offset = M.address_offset va

      abbrev size : ℕ
      size = M.align_upper (len + offset)

      abbrev pub rounds : ℕ
      rounds = (size - 1) / page_size

      abbrev pub next_page : ℕ
      next_page = M.align_lower va + page_size

      abbrev first : Pair
      first = record { address = translate va; number_of_bytes = page_size - offset }

      -- What a list says that describes the buffer: the physical address of each of its bytes, in as
      -- few pairs as their order allows.
      abbrev pub Describes : Option Mdl → Type 0
      Describes none = ⊥
      Describes (some d) =
          ((i : ℕ) → i < len → byte_at d.translations i ≡ some (translate (va + i)))
          × IsMaximal d.translations
          × (d.number_of_translation_pairs ≡ length d.translations)
          × (d.byte_count ≡ len)
          × (d.start_va + d.byte_offset ≡ va)

      byte_at-first :
          (i : ℕ)
          → Mapped translate rounds next_page
          → translate va ≢ 0
          → i < len
          → byte_at (first ∷ pages translate rounds next_page) i ≡ some (translate (va + i))
      unfolding byte_at
      byte_at-first i m real h = elim (Bool-cases (ltb i (page_size - offset))) [
        | inl e ↦ rw e (
            ap some (
              sym (
                paged va i
                  (ground
                    (arith, M.align_lower_aligned va, M.align_lower_offset va, M.offset_small va))
                  real)))
        | inr e ↦
            let ge : page_size - offset ≤ i = ground arith in
            rw e (
              byte_at-pages rounds next_page (i - (page_size - offset))
                (omega (arith, M.align_lower_aligned va)) m
                (omega (
                  arith,
                  M.align_upper_aligned (len + offset),
                  M.align_upper_least (len + offset),
                  M.offset_small va,
                ))
              ∙ ap (λ n. some (translate n))
                  (omega (arith, M.align_lower_offset va, M.offset_small va)))
      ]

      list : List Pair → Mdl
      list ps = record {
        byte_count = len;
        start_va = M.align_lower va;
        byte_offset = offset;
        number_of_translation_pairs = length ps;
        translations = ps;
      }

      allocate-eq :
          (kernel_memory : Bool) (ps : List Pair)
          → size < 2 ^ 32
          → translate va ≢ 0
          → fill_loop translate rounds next_page first ≡ done ps
          → Wrote translate rounds next_page first ps
          → allocate translate kernel_memory true va len ≡ done (some (list ps))
      unfolding allocate list
      allocate-eq kernel_memory ps fits real e w =
          let no_wrap : dword (M.align_upper (dword (len + offset))) ≡ size =
            let small : (len + offset) % 2 ^ 32 ≡ len + offset =
              omega (arith, M.align_upper_least (len + offset)) in
            ap (λ n. M.align_upper n % 2 ^ 32) small ∙ omega arith in
          ground (arith, w.counted 1)

      -- A buffer that is not empty, whose pages are all mapped, each as one piece, and whose size,
      -- rounded to pages, fits a `DWORD`: where the heap has room, a list is returned that gives
      -- the physical address of each of the buffer's bytes, in as few pairs as their order allows;
      -- no assertion fails, so the two passes over the pages find the same number of pairs.
      pub allocate-Describes :
          (kernel_memory : Bool)
          → 0 < len
          → size < 2 ^ 32
          → translate va ≢ 0
          → Mapped translate rounds next_page
          → Returns Describes (allocate translate kernel_memory true va len)
      allocate-Describes kernel_memory pos fits real m =
          let (ps, e, w) = Returns-done _ (
            fill_loop-Wrote translate rounds next_page first m (
              omega (
                arith,
                M.align_upper_aligned (len + offset),
                M.align_upper_least (len + offset),
                M.offset_small va,
              ))) in
          rw (allocate-eq kernel_memory ps fits real e w) (
            unfold list in
            (
              (λ i h. w.same_bytes i ∙ byte_at-first i m real h),
              w.maximal,
              refl,
              refl,
              M.align_lower_offset va,
            ))
