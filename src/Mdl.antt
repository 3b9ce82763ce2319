-- ===== src/Mdl.antt =====
-- Memory descriptor lists, src/HAL9000/src/mdl.c. The page tables are an argument: `translate` is
-- `MmuGetPhysicalAddressEx` (src/HAL9000/src/mmu.c) after the memory has been probed, and gives 0 for an
-- address that is not mapped. Physical addresses have at most 52 bits, so their sums do not wrap.
pub mod Coverage
pub mod Allocate
use good_osd_project.Prelude.{
  ℕ, zero, suc, ◌+◌, ◌-◌, ◌/◌, Bool, true, false, not, Option, none, some, List, [], ◌∷◌, get_elem?,
  ltb, ◌==◌, if◌then◌else◌, length,
}
use good_osd_project.CommonLib.{PageMath, page_size}
use good_osd_project.Kernel.{Outcome, done, ◌>>=◌, ◌>>◌, assert, dword}

-- `MDL_TRANSLATION_PAIR`
pub record Pair : Type 0 where
  pub address : ℕ
  pub number_of_bytes : ℕ

pub record Mdl : Type 0 where
  pub byte_count : ℕ
  pub start_va : ℕ
  pub byte_offset : ℕ
  pub number_of_translation_pairs : ℕ
  pub translations : List Pair

-- Whether the next page follows the current pair without a gap.
abbrev pub follows : Pair → ℕ → Bool
follows p pa = p.address + p.number_of_bytes == pa

-- The current pair behind a round of either loop.
unfoldable pub next_pair : Pair → ℕ → Pair
next_pair p pa =
    if follows p pa
    then record p { number_of_bytes = dword (p.number_of_bytes + page_size) }
    else record { address = pa; number_of_bytes = page_size }

module _ (translate : ℕ → ℕ) where
  -- The first loop of `MdlAllocateEx`, which counts the pairs: `rounds` rounds are left, and `at` is
  -- the address of the next page.
  unfoldable pub count_loop : (rounds at : ℕ) → Pair → (no_of_pairs : ℕ) → Outcome ℕ
  count_loop zero at p n = done n
  count_loop (suc r) at p n =
      let pa = translate at in
      assert (not (pa == 0))
      >> count_loop r (at + page_size) (next_pair p pa) (if follows p pa then n else n + 1)

  -- The second loop, which writes them.
  unfoldable pub fill_loop : (rounds at : ℕ) → Pair → Outcome (List Pair)
  fill_loop zero at p = done (p ∷ [])
  fill_loop (suc r) at p =
      let pa = translate at in
      assert (not (pa == 0))
      >> (fill_loop r (at + page_size) (next_pair p pa) >>= λ rest.
          done (if follows p pa then rest else p ∷ rest))

  module _ ⦃M : PageMath⦄ where
    -- `MdlAllocateEx`; `none` is `NULL`. `kernel_memory` is `bKernelMemory`, and `allocated` whether
    -- the heap has room for the list.
    unfoldable pub allocate : (kernel_memory allocated : Bool) → (va len : ℕ) → Outcome (Option Mdl)
    allocate kernel_memory allocated va len =
        let aligned = M.align_lower va in
        let offset = M.address_offset va in
        let size = dword (M.align_upper (dword (len + offset))) in
        let rounds = (size - 1) / page_size in
        let first : Pair = record {
          address = translate va;
          number_of_bytes = page_size - offset;
        } in
        if translate va == 0 then (do assert (not kernel_memory); done none) else (do
          no_of_pairs ← count_loop rounds (aligned + page_size) first 1
          if allocated
              then (do
                pairs ← fill_loop rounds (aligned + page_size) first
                assert (length pairs == no_of_pairs)
                done (
                    some (record {
                      byte_count = len;
                      start_va = aligned;
                      byte_offset = offset;
                      number_of_translation_pairs = length pairs;
                      translations = pairs;
                    })))
              else done none)

-- `MdlGetNumberOfPairs`
unfoldable pub get_number_of_pairs : Mdl → ℕ
get_number_of_pairs m = m.number_of_translation_pairs

-- `MdlGetTranslationPair`
unfoldable pub get_translation_pair : Mdl → ℕ → Option Pair
get_translation_pair m i =
    if ltb i m.number_of_translation_pairs then get_elem? m.translations i else none
