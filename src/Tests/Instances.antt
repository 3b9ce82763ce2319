-- ===== src/Tests/Instances.antt =====
-- The interfaces of CommonLib filled with concrete functions, for the runs of the other tests.
use Prim.Native.Nat.{bit_and, suc}
use good_osd_project.Vmm.{AddressBits}
use good_osd_project.Prelude.{
  zero, suc, ◌+◌, ◌-◌, ◌/◌, ◌*◌, ◌%◌, ◌≤◌, ◌<◌, arith, ℕ, refl, leb, List, Bool, ◌++◌, true, Option,
  ◌&&◌, count, ◌≡◌, ◌==◌, ◌∷◌, ◌≢◌, ◌||◌, false, [], not, arith, if◌then◌else◌, none, eq_cases,
  some, inl, inr, Bool-cases, ◌↔◌,
}
use good_osd_project.CommonLib.{
  ListOps, PageMath, BitmapOps, Checks, page_size, max_dword, in_range, MemoryMap, RefCounts,
}

-- A list without the first `x` in it.
abbrev pub without : List ℕ → ℕ → List ℕ
without [] x = []
without (y ∷ ys) x = if y == x then ys else y ∷ without ys x

pub without-append : (xs ys : List ℕ) (x : ℕ) → count x xs ≡ 0 → without (xs ++ x ∷ ys) x ≡ xs ++ ys
without-append [] ys x h = ground arith
without-append (z ∷ xs) ys x h = ground (arith, without-append xs ys x)

abbrev pub take_head : List ℕ → Option (ℕ × List ℕ)
take_head [] = none
take_head (x ∷ xs) = some (x, xs)

instance abbrev pub list_ops : ListOps
list_ops = record {
  insert_tail = λ q x. q ++ x ∷ [];
  remove_head = take_head;
  remove_entry = without;
  insert_tail_lem = λ q x. refl;
  remove_head_nil = refl;
  remove_head_cons = λ x q. refl;
  remove_entry_lem = without-append;
}

instance abbrev pub page_math : PageMath
page_math = record {
  align_lower = λ a. a / page_size * page_size;
  align_upper = λ a. (a + (page_size - 1)) / page_size * page_size;
  address_offset = λ a. a % page_size;
  align_lower_aligned = λ a. omega arith;
  align_lower_offset = λ a. omega arith;
  offset_small = λ a. omega arith;
  align_upper_aligned = λ a. omega arith;
  align_upper_least = λ a. (omega arith, omega arith);
}

-- Whether `n` bits from `s` on are clear.
abbrev pub all_clear : (ℕ → Bool) → (s n : ℕ) → Bool
all_clear b s zero = true
all_clear b s (suc n) = not (b s) && all_clear b (s + 1) n

pub all_clear-in_range :
    (b : ℕ → Bool) (s n i : ℕ) → all_clear b s n ≡ true → in_range s n i ≡ true → b i ≡ false
all_clear-in_range b s zero i h r = ground arith
all_clear-in_range b s (suc n) i h r = elim (eq_cases s i) [
  | inl e ↦ rw (← e) (ground arith)
  | inr e ↦ all_clear-in_range b (s + 1) n i (ground arith) (ground arith)
]

-- The first place of `n` clear bits among the `tries` places from `s` on.
abbrev pub scan : (ℕ → Bool) → (tries s n : ℕ) → ℕ
scan b zero s n = max_dword
scan b (suc f) s n = if all_clear b s n then s else scan b f (s + 1) n

pub scan_sound :
    (b : ℕ → Bool) (f s n : ℕ)
    → scan b f s n ≢ max_dword
    → (s ≤ scan b f s n) × (scan b f s n < s + f) × (all_clear b (scan b f s n) n ≡ true)
scan_sound b zero s n h = absurd (h refl)
scan_sound b (suc f) s n h = elim (Bool-cases (all_clear b s n)) [
  | inl e ↦ rw e (omega arith, omega arith, e)
  | inr e ↦ ground (arith, scan_sound b f (s + 1) n)
]

in_range-all_clear :
    (b : ℕ → Bool) (s n : ℕ)
    → ((i : ℕ) → in_range s n i ≡ true → b i ≡ false)
    → all_clear b s n ≡ true
in_range-all_clear b s zero h = refl
in_range-all_clear b s (suc n) h =
    ground (arith, h s, in_range-all_clear b (s + 1) n (λ i r. h i (ground arith)))

pub scan_complete :
    (b : ℕ → Bool) (total s n : ℕ)
    → total ≤ max_dword
    → 0 < n
    → s + n ≤ total
    → ((i : ℕ) → in_range s n i ≡ true → b i ≡ false)
    → scan b (total + 1 - (s + n)) s n ≡ s
scan_complete b total s n small pos room h =
    let e : total + 1 - (s + n) ≡ suc (total - (s + n)) = omega arith in
    rw (e, in_range-all_clear b s n h)

instance abbrev pub bitmap_ops : BitmapOps
bitmap_ops = record {
  buffer_size = λ n. (n + 7) / 8;
  clear = λ i. false;
  set_bits = λ b s n i. if in_range s n i then true else b i;
  clear_bits = λ b s n i. if in_range s n i then false else b i;
  scan_from = λ b total s n. scan b (total + 1 - (s + n)) s n;
  clear_lem = λ i. refl;
  set_bits_lem = λ b s n i. refl;
  clear_bits_lem = λ b s n i. refl;
  scan_from_sound = λ b total s n h.
      let (lo, hi, c) = scan_sound b (total + 1 - (s + n)) s n h in
      (lo, omega arith, λ i. all_clear-in_range b _ n i c);
  scan_from_complete = scan_complete;
}

instance abbrev pub memory_map : MemoryMap
memory_map = record { memory_map_entry_ea_valid_entry = 1; memory_map_type_usable_ram = 1 }

-- The first test gives the law, and changes no value.
abbrev pub flag_on : (flags mask : ℕ) → Bool
flag_on f m = f == m || bit_and f m == m

pub in_bounds :
    (a s b l : ℕ) → (leb b a && leb (a + s) (b + l) ≡ true) ↔ ((b ≤ a) × (a + s ≤ b + l))
in_bounds a s b l = ground arith

pub flag_on_refl : (r : ℕ) → flag_on r r ≡ true
flag_on_refl r = ground arith

instance abbrev pub checks : Checks
checks = record {
  check_bounds = λ a s b l. leb b a && leb (a + s) (b + l);
  is_flag_on = flag_on;
  page_rights_execute = 4;
  page_rights_write = 2;
  page_rights_readwrite = 3;
  check_bounds_iff = in_bounds;
  is_flag_on_refl = flag_on_refl;
}

instance abbrev pub address_bits : AddressBits
address_bits = record { va_highest_valid_bit = 47 }

pub dereference_lem : (n : ℕ) → n + 1 - 1 ≡ n
dereference_lem n = omega arith

instance abbrev pub ref_counts : RefCounts
ref_counts = record {
  rfc_init = 1;
  rfc_reference = λ n. n + 1;
  rfc_dereference = λ n. n - 1;
  rfc_init_lem = refl;
  rfc_reference_lem = λ n. refl;
  rfc_dereference_lem = dereference_lem;
}
