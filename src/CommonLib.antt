-- ===== src/CommonLib.antt =====
-- What the kernel takes from CommonLib (list.h, bitmap.h and the alignment macros), a library whose
-- sources the repository does not hold: interfaces with the documented behaviour as laws.
use good_osd_project.Prelude.{
  Bool, true, false, ltb, leb, ◌&&◌, ◌-◌, ◌^◌, ◌≢◌, ◌↔◌, if◌then◌else◌, ℕ, ◌≡◌, Option, none, some,
  List, [], ◌∷◌, ◌++◌, count, ◌%◌, ◌+◌, ◌<◌, ◌≤◌,
}

-- `LIST_ENTRY` heads, as the lists of what is linked to them, front first. `RemoveHeadList` returns
-- the head itself for an empty list, which is `none` here.
pub record ListOps : Type 0 where
  pub insert_tail : List ℕ → ℕ → List ℕ
  pub remove_head : List ℕ → Option (ℕ × List ℕ)
  pub remove_entry : List ℕ → ℕ → List ℕ
  pub insert_tail_lem : (q : List ℕ) (x : ℕ) → insert_tail q x ≡ q ++ x ∷ []
  pub remove_head_nil : remove_head [] ≡ none
  pub remove_head_cons : (x : ℕ) (q : List ℕ) → remove_head (x ∷ q) ≡ some (x, q)
  pub remove_entry_lem :
      (xs ys : List ℕ) (x : ℕ) → count x xs ≡ 0 → remove_entry (xs ++ x ∷ ys) x ≡ xs ++ ys

-- The size of a page, which pmm.c's comment on `HighestPhysicalAddressAvailable` shows too.
abbrev pub page_size : ℕ
page_size = 4096

-- The macros that round to a page: `AlignAddressLower`, `AlignAddressUpper` and `AddressOffset` at
-- `PAGE_SIZE`, as functions of numbers that do not wrap.
pub record PageMath : Type 0 where
  pub align_lower : ℕ → ℕ
  pub align_upper : ℕ → ℕ
  pub address_offset : ℕ → ℕ
  pub align_lower_aligned : (a : ℕ) → align_lower a % page_size ≡ 0
  pub align_lower_offset : (a : ℕ) → align_lower a + address_offset a ≡ a
  pub offset_small : (a : ℕ) → address_offset a < page_size
  pub align_upper_aligned : (a : ℕ) → align_upper a % page_size ≡ 0
  pub align_upper_least : (a : ℕ) → (a ≤ align_upper a) × (align_upper a < a + page_size)

-- The largest `DWORD`, which the bitmaps return for "none".
abbrev pub max_dword : ℕ
max_dword = 2 ^ 32 - 1

abbrev pub in_range : (start n i : ℕ) → Bool
in_range start n i = leb start i && ltb i (start + n)

-- `BITMAP`, as the function from indices to its bits. `buffer_size` is what `BitmapPreinit` returns,
-- in bytes; `clear` is a bitmap behind `BitmapInit`; `scan_from` is the search of
-- `BitmapScanFromAndFlip` for clear bits in a bitmap of `count` elements, which the flip then sets.
pub record BitmapOps : Type 0 where
  pub buffer_size : ℕ → ℕ
  pub clear : ℕ → Bool
  pub set_bits : (ℕ → Bool) → (start n : ℕ) → ℕ → Bool
  pub clear_bits : (ℕ → Bool) → (start n : ℕ) → ℕ → Bool
  pub scan_from : (ℕ → Bool) → (count start n : ℕ) → ℕ
  pub clear_lem : (i : ℕ) → clear i ≡ false
  pub set_bits_lem :
      (b : ℕ → Bool) (s n i : ℕ) → set_bits b s n i ≡ (if in_range s n i then true else b i)
  pub clear_bits_lem :
      (b : ℕ → Bool) (s n i : ℕ) → clear_bits b s n i ≡ (if in_range s n i then false else b i)
  pub scan_from_sound :
      (b : ℕ → Bool) (count s n : ℕ)
      → scan_from b count s n ≢ max_dword
      → (s ≤ scan_from b count s n)
        × (scan_from b count s n + n ≤ count)
        × ((i : ℕ) → in_range (scan_from b count s n) n i ≡ true → b i ≡ false)
  pub scan_from_complete :
      (b : ℕ → Bool) (count s n : ℕ)
      → count ≤ max_dword
      → 0 < n
      → s + n ≤ count
      → ((i : ℕ) → in_range s n i ≡ true → b i ≡ false)
      → scan_from b count s n ≡ s

-- `CHECK_BOUNDS(address, size, start, length)`, whether one range lies within another, and
-- `IsBooleanFlagOn(flags, mask)`, whether all flags of the mask are set; the values of two
-- `PAGE_RIGHTS` masks come with it.
pub record Checks : Type 0 where
  pub check_bounds : (address size start length : ℕ) → Bool
  pub is_flag_on : (flags mask : ℕ) → Bool
  pub page_rights_execute : ℕ
  pub page_rights_write : ℕ
  pub page_rights_readwrite : ℕ
  pub check_bounds_iff : (a s b l : ℕ) → (check_bounds a s b l ≡ true) ↔ ((b ≤ a) × (a + s ≤ b + l))
  pub is_flag_on_refl : (r : ℕ) → is_flag_on r r ≡ true

-- The constants of the firmware's memory map (int15.h).
pub record MemoryMap : Type 0 where
  pub memory_map_entry_ea_valid_entry : ℕ
  pub memory_map_type_usable_ram : ℕ

-- `REF_COUNT`: the count behind `RfcInit`, `RfcReference` and `RfcDereference`, whose result is the new
-- count. Its user runs the free function where that is 0.
pub record RefCounts : Type 0 where
  pub rfc_init : ℕ
  pub rfc_reference : ℕ → ℕ
  pub rfc_dereference : ℕ → ℕ
  pub rfc_init_lem : rfc_init ≡ 1
  pub rfc_reference_lem : (n : ℕ) → rfc_reference n ≡ n + 1
  pub rfc_dereference_lem : (n : ℕ) → rfc_dereference (n + 1) ≡ n
