-- ===== src/Keyboard/Held.antt =====
-- What the data of the keyboard (src/HAL9000/src/keyboard.c) say of the keys that were pressed and released.
use good_osd_project.Prelude.{
  ℕ, ◌-◌, ◌≡◌, Bool, true, false, not, ◌&&◌, ◌||◌, List, [], ◌∷◌, leb, ◌==◌, if◌then◌else◌, refl,
  sym, subst, Bool-cases, inl, inr,
}
use good_osd_project.Keyboard.Codes.{key_capslock, key_kp_numlock, key_scrolllock}
use good_osd_project.Keyboard.{
  KeyboardData, update_leds, is_ctrl, is_shift, is_alt, key_released, key_pressed, key_of, isr,
  isr_all,
}

-- A key with whether it was pressed.
abbrev pub Stroke : Type 0
Stroke = Bool × ℕ

-- The strokes that a sequence of bytes stands for: a byte 224 or 225 makes the next one an extended code.
unfoldable pub strokes : (beyond_std beyond_ext : ℕ → ℕ) → (extended : Bool) → List ℕ → List Stroke
strokes bs be x [] = []
strokes bs be x (c ∷ cs) =
    let stroke =
      if leb 128 c then (false, key_of bs be x (c - 128)) else (true, key_of bs be x c) in
    let later = strokes bs be false cs in
    let prefixed = strokes bs be true cs in
    if c == 224 || c == 225 then prefixed else stroke ∷ later

-- Whether the last stroke of one of these keys pressed it.
unfoldable pub last_pressed : (ℕ → Bool) → List Stroke → Bool → Bool
last_pressed f [] b = b
last_pressed f ((p, k) ∷ ss) b = last_pressed f ss (if f k then p else b)

-- Whether a key was pressed an odd number of times, from a start on.
unfoldable pub toggled : ℕ → List Stroke → Bool → Bool
toggled key [] b = b
toggled key ((p, k) ∷ ss) b = toggled key ss (if p && k == key then not b else b)

-- The key that was pressed last.
unfoldable pub last_key : List Stroke → ℕ → ℕ
last_key [] n = n
last_key ((p, k) ∷ ss) n = last_key ss (if p then k else n)

-- The data for these strokes, from the data `d` on.
abbrev pub Follows : List Stroke → (d e : KeyboardData) → Type 0
Follows ss d e =
    (e.shift ≡ last_pressed is_shift ss d.shift)
    × (e.ctrl ≡ last_pressed is_ctrl ss d.ctrl)
    × (e.alt ≡ last_pressed is_alt ss d.alt)
    × (e.caps_lock ≡ toggled key_capslock ss d.caps_lock)
    × (e.num_lock ≡ toggled key_kp_numlock ss d.num_lock)
    × (e.scroll_lock ≡ toggled key_scrolllock ss d.scroll_lock)
    × (e.keycode ≡ last_key ss d.keycode)

carried :
    {ss ss' : List Stroke} (d : KeyboardData) {e e' : KeyboardData}
    → e ≡ e'
    → ss ≡ ss'
    → Follows ss' d e'
    → Follows ss d e
carried {ss} {ss'} d {e} {e'} p q h =
    subst (λ (x : List Stroke). Follows x d e) (sym q)
      (subst (λ (x : KeyboardData). Follows ss' d x) (sym p) h)

clear_eq : (b c : Bool) → (not b && c) ≡ (if b then false else c)
clear_eq true c = refl
clear_eq false c = refl

set_eq : (b c : Bool) → (b || c) ≡ (if b then true else c)
set_eq true c = refl
set_eq false c = refl

released-Follows :
    (k : ℕ) (ss : List Stroke) (d e : KeyboardData)
    → Follows ss (record (key_released k d) { extended_code = false }) e
    → Follows ((false, k) ∷ ss) d e
unfolding key_released last_pressed toggled last_key
released-Follows k ss d e h =
    rw (← clear_eq (is_shift k) d.shift, ← clear_eq (is_ctrl k) d.ctrl, ← clear_eq (is_alt k) d.alt)
      h

-- The lights do not change the rest of the data.
lights-Follows :
    (b : Bool) (ss : List Stroke) (d e : KeyboardData)
    → Follows ss (record (if b then update_leds d else d) { extended_code = false }) e
    → Follows ss d e
unfolding update_leds
lights-Follows true ss d e h = h
lights-Follows false ss d e h = h

pressed-Follows :
    (k : ℕ) (ss : List Stroke) (d e : KeyboardData)
    → Follows ss (record (key_pressed k d) { extended_code = false }) e
    → Follows ((true, k) ∷ ss) d e
unfolding key_pressed last_pressed toggled last_key
pressed-Follows k ss d e h =
    rw (← set_eq (is_shift k) d.shift, ← set_eq (is_ctrl k) d.ctrl, ← set_eq (is_alt k) d.alt)
      (lights-Follows _ ss _ e h)

module _ (bs be : ℕ → ℕ) (c : ℕ) (cs : List ℕ) (d : KeyboardData) where
  -- A byte that is a prefix, one with the break bit, and any other.
  first_prefix :
      (c == 224 || c == 225) ≡ true
      → (isr_all bs be (c ∷ cs) d ≡ isr_all bs be cs (record d { extended_code = true }))
        × (strokes bs be d.extended_code (c ∷ cs) ≡ strokes bs be true cs)
  unfolding isr_all isr strokes
  first_prefix p = (rw p refl, rw p refl)

  first_break :
      (c == 224 || c == 225) ≡ false
      → leb 128 c ≡ true
      → let k = key_of bs be d.extended_code (c - 128) in
        (isr_all bs be (c ∷ cs) d
          ≡ isr_all bs be cs (record (key_released k d) { extended_code = false }))
        × (strokes bs be d.extended_code (c ∷ cs) ≡ (false, k) ∷ strokes bs be false cs)
  unfolding isr_all isr strokes
  first_break p b = (rw (p, b) refl, rw (p, b) refl)

  first_make :
      (c == 224 || c == 225) ≡ false
      → leb 128 c ≡ false
      → let k = key_of bs be d.extended_code c in
        (isr_all bs be (c ∷ cs) d
          ≡ isr_all bs be cs (record (key_pressed k d) { extended_code = false }))
        × (strokes bs be d.extended_code (c ∷ cs) ≡ (true, k) ∷ strokes bs be false cs)
  unfolding isr_all isr strokes
  first_make p b = (rw (p, b) refl, rw (p, b) refl)

-- After any bytes, whatever follows the tables in memory: the modifiers are on where the last stroke of
-- one of their two keys pressed it, or as before where there was none; the locks have changed with each
-- time their key was pressed; and the key code is that of the key that was pressed last.
pub isr_all-Strokes :
    (bs be : ℕ → ℕ) (cs : List ℕ) (d : KeyboardData)
    → let ss = strokes bs be d.extended_code cs in Follows ss d (isr_all bs be cs d)
unfolding isr_all strokes last_pressed toggled last_key
isr_all-Strokes bs be [] d = (refl, refl, refl, refl, refl, refl, refl)
isr_all-Strokes bs be (c ∷ cs) d = elim (Bool-cases (c == 224 || c == 225)) [
  | inl p ↦
      let (e, q) = first_prefix bs be c cs d p in
      carried d e q (isr_all-Strokes bs be cs (record d { extended_code = true }))
  | inr p ↦ elim (Bool-cases (leb 128 c)) [
    | inl b ↦
        let k = key_of bs be d.extended_code (c - 128) in
        let d' : KeyboardData = record (key_released k d) { extended_code = false } in
        let (e, q) = first_break bs be c cs d p b in
        carried d e q (
          released-Follows k (strokes bs be false cs) d (isr_all bs be cs d')
            (isr_all-Strokes bs be cs d'))
    | inr b ↦
        let k = key_of bs be d.extended_code c in
        let d' : KeyboardData = record (key_pressed k d) { extended_code = false } in
        let (e, q) = first_make bs be c cs d p b in
        carried d e q (
          pressed-Follows k (strokes bs be false cs) d (isr_all bs be cs d')
            (isr_all-Strokes bs be cs d'))
  ]
]
