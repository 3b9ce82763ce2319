-- ===== src/Keyboard.antt =====
-- The keyboard, src/HAL9000/src/keyboard.c: its interrupt, and the character of a key. The commands to
-- the keyboard are those of the lights, and the signal of `KeyPressedEvt` is left to the event.
pub mod Codes
pub mod Held
use good_osd_project.Prelude.{
  ℕ, suc, zero, ◌+◌, ◌-◌, ◌*◌, Bool, true, false, not, ◌&&◌, ◌||◌, List, [], ◌∷◌, ltb, leb, ◌==◌,
  if◌then◌else◌,
}
use good_osd_project.Keyboard.Codes.*

-- `KEYBOARD_DATA`, with the prefix that the interrupt remembers, and the lights as they were set last.
pub record KeyboardData : Type 0 where
  pub keycode : ℕ
  pub num_lock : Bool
  pub scroll_lock : Bool
  pub caps_lock : Bool
  pub shift : Bool
  pub alt : Bool
  pub ctrl : Bool
  pub extended_code : Bool
  pub leds : ℕ

abbrev pub bit_of : Bool → ℕ
bit_of b = if b then 1 else 0

-- `_KeyboardUpdateLEDs`
unfoldable pub update_leds : KeyboardData → KeyboardData
update_leds d = record d {
  leds = bit_of d.scroll_lock + 2 * bit_of d.num_lock + 4 * bit_of d.caps_lock;
}

-- The entry of a table, and what stands behind it in memory.
abbrev pub entry : List ℕ → (beyond : ℕ → ℕ) → ℕ → ℕ
entry [] beyond i = beyond i
entry (x ∷ xs) beyond zero = x
entry (x ∷ xs) beyond (suc i) = entry xs beyond i

abbrev pub is_ctrl : ℕ → Bool
is_ctrl key = key == key_lctrl || key == key_rctrl

abbrev pub is_shift : ℕ → Bool
is_shift key = key == key_lshift || key == key_rshift

abbrev pub is_alt : ℕ → Bool
is_alt key = key == key_lalt || key == key_ralt

-- The part of `_KeyboardIsr` for a key that is released.
unfoldable pub key_released : ℕ → KeyboardData → KeyboardData
key_released key d = record d {
  ctrl = not (is_ctrl key) && d.ctrl;
  shift = not (is_shift key) && d.shift;
  alt = not (is_alt key) && d.alt;
}

-- Its part for a key that is pressed.
unfoldable pub key_pressed : ℕ → KeyboardData → KeyboardData
unfolding update_leds
key_pressed key d =
    let caps = key == key_capslock in
    let num = key == key_kp_numlock in
    let scroll = key == key_scrolllock in
    let d' = record d {
      keycode = key;
      ctrl = is_ctrl key || d.ctrl;
      shift = is_shift key || d.shift;
      alt = is_alt key || d.alt;
      caps_lock = if caps then not d.caps_lock else d.caps_lock;
      num_lock = if num then not d.num_lock else d.num_lock;
      scroll_lock = if scroll then not d.scroll_lock else d.scroll_lock;
    } in
    if caps || num || scroll then update_leds d' else d'

-- The tables with what follows them in memory.
module _ (beyond_std beyond_ext : ℕ → ℕ) where
  -- The key of a code without its break bit.
  unfoldable pub key_of : (extended : Bool) → (code : ℕ) → ℕ
  key_of extended code =
      if extended then entry scancode_ext beyond_ext code else entry scancode_std beyond_std code

  -- `_KeyboardIsr`, for the byte that it reads: the data, and whether it signals the event. The break
  -- bit is the highest of the byte.
  unfoldable pub isr : ℕ → KeyboardData → KeyboardData × Bool
  isr code d =
      let key = key_of d.extended_code (if leb 128 code then code - 128 else code) in
      let d' = if leb 128 code then key_released key d else key_pressed key d in
      if code == 224 || code == 225
      then (record d { extended_code = true }, false)
      else (record d' { extended_code = false }, true)

  -- The interrupts of a sequence of bytes.
  unfoldable pub isr_all : List ℕ → KeyboardData → KeyboardData
  isr_all [] d = d
  isr_all (c ∷ cs) d = isr_all cs (isr c d).0

-- The characters that shift leads to.
abbrev pub shifted : List (ℕ × ℕ)
shifted =
    (48, 41)
    ∷ (49, 33)
    ∷ (50, 64)
    ∷ (51, 33)
    ∷ (52, 35)
    ∷ (53, 37)
    ∷ (54, 94)
    ∷ (55, 38)
    ∷ (56, 42)
    ∷ (57, 40)
    ∷ (44, 60)
    ∷ (46, 62)
    ∷ (47, 63)
    ∷ (59, 58)
    ∷ (39, 34)
    ∷ (91, 123)
    ∷ (93, 125)
    ∷ (96, 126)
    ∷ (45, 95)
    ∷ (43, 61)
    ∷ (92, 124)
    ∷ []

unfoldable pub replace : List (ℕ × ℕ) → ℕ → ℕ
replace [] c = c
replace ((k, v) ∷ rest) c = if c == k then v else replace rest c

-- `KeyboardKeyToAscii`
unfoldable pub key_to_ascii : KeyboardData → ℕ → ℕ
unfolding replace
key_to_ascii d code =
    let upper = if d.shift then not d.caps_lock else d.caps_lock in
    let c = if upper && leb 97 code && leb code 122 then code - 32 else code in
    if code == key_unknown || not (ltb code 128)
    then 0
    else (if d.shift then replace shifted c else c)
