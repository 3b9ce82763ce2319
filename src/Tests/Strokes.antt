-- ===== src/Tests/Strokes.antt =====
-- A run of the keyboard.
use good_osd_project.Prelude.{ℕ, false, List, [], ◌∷◌}
use good_osd_project.Keyboard.{KeyboardData, isr_all}
use good_osd_project.Keyboard.Held.{Follows, strokes, isr_all-Strokes}

abbrev keyboard : KeyboardData
keyboard = record {
  keycode = 16402;
  num_lock = false;
  scroll_lock = false;
  caps_lock = false;
  shift = false;
  alt = false;
  ctrl = false;
  extended_code = false;
  leds = 0;
}

-- The caps lock, the left shift pressed, an arrow, and the left shift released.
abbrev bytes : List ℕ
bytes = 58 ∷ 186 ∷ 42 ∷ 224 ∷ 72 ∷ 170 ∷ []

isr_all-Strokes_example :
    Follows
      (strokes (λ i. 0) (λ i. 0) false bytes)
      keyboard
      (isr_all (λ i. 0) (λ i. 0) bytes keyboard)
isr_all-Strokes_example = isr_all-Strokes (λ i. 0) (λ i. 0) bytes keyboard
