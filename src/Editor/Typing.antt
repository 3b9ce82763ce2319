-- ===== src/Editor/Typing.antt =====
-- Whole sequences of keys in the line editor of src/HAL9000/src/keyboard_utils.c.
use good_osd_project.Prelude.{
  ℕ, ◌+◌, ◌-◌, ◌≡◌, ◌≢◌, ◌≤◌, ◌<◌, true, false, List, [], ◌∷◌, ltb, ◌==◌, length, ◌&&◌, not,
  if◌then◌else◌, arith, refl, inl, inr, eq_cases,
}
use good_osd_project.Editor.{
  TextOps, Key, key_return, key_backspace, key_delete, key_up, key_down, key_left, key_right,
  key_home, key_end, key_tab, other_key, Editor, History, start_line, delete_before, insert_char,
  move_left, move_right, move_home, move_end, press, type_keys,
}
use good_osd_project.Editor.Line.{
  Line, Holds, edit, edit_all, is_edit, all_edit, length_eq, insert_char-Holds, delete_before-Holds,
}

module _ ⦃T : TextOps⦄ where
  -- A key that only moves the cursor.
  at_cursor :
      {e : Editor} {l : Line} (i column : ℕ)
      → Holds e l
      → i ≤ l.size
      → column ≡ 3 + i
      → Holds (record e { i = i; cursor_column = column }) (record l { cursor = i })
  at_cursor i column h lt q = record {
    room = h.room;
    fits = h.fits;
    cursor_in = lt;
    cursor_eq = refl;
    column_eq = q;
    chars = h.chars;
    ends = h.ends;
  }

  move_left-Holds : {e : Editor} {l : Line} → Holds e l → Holds (move_left e) (edit l key_left)
  unfolding move_left
  move_left-Holds {e} {l} h =
      let (lo, hi) = h.room in
      let f = h.fits in
      let ci = h.cursor_in in
      let ce = h.cursor_eq in
      let co = h.column_eq in
      elim (eq_cases e.i 0) [
        | inl z ↦
            let x : (e.i == 0) ≡ true = ground arith in
            let y : l.cursor - 1 ≡ l.cursor = omega arith in rw (x, y) h
        | inr z ↦
            let x : (e.i == 0) ≡ false = ground arith in
            rw (x, ← ce) (at_cursor (e.i - 1) _ h (omega arith) (omega arith))
      ]

  move_right-Holds :
      {e : Editor} {l : Line}
      → Holds e l
      → l.size + 1 < e.max_buffer_size
      → Holds (move_right e) (edit l key_right)
  unfolding move_right
  move_right-Holds {e} {l} h lt =
      let (lo, hi) = h.room in
      let ci = h.cursor_in in
      let ce = h.cursor_eq in
      let co = h.column_eq in
      let c = h.chars e.i in
      let en = h.ends in
      elim (eq_cases l.cursor l.size) [
        | inl z ↦
            let x : (ltb e.i (e.max_buffer_size - 2) && not (e.buffer e.i == 0)) ≡ false =
              ground arith in
            let y : ltb l.cursor l.size ≡ false = ground arith in rw (x, y) h
        | inr z ↦
            let x : (ltb e.i (e.max_buffer_size - 2) && not (e.buffer e.i == 0)) ≡ true =
              ground arith in
            let y : ltb l.cursor l.size ≡ true = ground arith in
            rw (x, y, ← ce) (at_cursor (e.i + 1) _ h (omega arith) (omega arith))
      ]

  move_home-Holds :
      {e : Editor} {l : Line}
      → Holds e l
      → Holds (if e.i == 0 then e else move_home e) (edit l key_home)
  unfolding move_home
  move_home-Holds {e} {l} h =
      let (lo, hi) = h.room in
      let f = h.fits in
      let ci = h.cursor_in in
      let ce = h.cursor_eq in
      let co = h.column_eq in
      elim (eq_cases e.i 0) [
        | inl z ↦
            let x : (e.i == 0) ≡ true = ground arith in
            let y : 0 ≡ l.cursor = omega arith in rw (x, y) h
        | inr z ↦
            let x : (e.i == 0) ≡ false = ground arith in
            rw x (at_cursor 0 _ h (omega arith) (omega arith))
      ]

  move_end-Holds : {e : Editor} {l : Line} → Holds e l → Holds (move_end e) (edit l key_end)
  unfolding move_end
  move_end-Holds {e} {l} h =
      let (lo, hi) = h.room in
      let f = h.fits in
      rw (length_eq e.max_buffer_size h h.fits) (at_cursor l.size _ h (omega arith) (omega arith))

  press-max :
      (e : Editor) (k : Key) → is_edit k ≡ true → (press e k).1.max_buffer_size ≡ e.max_buffer_size
  unfolding press delete_before insert_char move_left move_right move_home move_end
  press-max e key_backspace h = ground arith
  press-max e key_delete h = refl
  press-max e key_left h = ground arith
  press-max e key_right h = ground arith
  press-max e key_home h = ground arith
  press-max e key_end h = refl
  press-max e key_tab h = refl
  press-max e (other_key c) h = ground arith
  press-max e key_return h = absurd (ground arith)
  press-max e key_up h = absurd (ground arith)
  press-max e key_down h = absurd (ground arith)

  no_char : (e : Editor) (c : ℕ) → c ≡ 0 → insert_char e c ≡ e
  unfolding insert_char
  no_char e c z = ground arith

  insert_char-i : (e : Editor) (c : ℕ) → c ≢ 0 → (insert_char e c).i ≡ e.i + 1
  unfolding insert_char
  insert_char-i e c z = ground arith

  other_key-Holds :
      {e : Editor} {l : Line} (c : ℕ)
      → Holds e l
      → l.size + 2 < e.max_buffer_size
      → (ltb (insert_char e c).i (e.max_buffer_size - 1) ≡ true)
        × Holds (insert_char e c) (edit l (other_key c))
  other_key-Holds {e} {l} c h lt =
      let ci = h.cursor_in in
      let ce = h.cursor_eq in
      elim (eq_cases c 0) [
        | inl z ↦ let x : (c == 0) ≡ true = ground arith in rw (no_char e c z, x) (ground arith, h)
        | inr z ↦ (ground (arith, insert_char-i e c z), insert_char-Holds c h (omega arith) z)
      ]

  press-Holds :
      {e : Editor} {l : Line} (k : Key)
      → Holds e l
      → l.size + 2 < e.max_buffer_size
      → is_edit k ≡ true
      → ((press e k).0 ≡ true) × Holds (press e k).1 (edit l k)
  unfolding press
  press-Holds key_backspace h lt ok = (refl, delete_before-Holds h (omega arith))
  press-Holds key_delete h lt ok = (refl, h)
  press-Holds key_left h lt ok = (refl, move_left-Holds h)
  press-Holds key_right h lt ok = (refl, move_right-Holds h (omega arith))
  press-Holds key_home h lt ok = (refl, move_home-Holds h)
  press-Holds key_end h lt ok = (refl, move_end-Holds h)
  press-Holds key_tab h lt ok = (refl, h)
  press-Holds (other_key c) h lt ok = other_key-Holds c h lt
  press-Holds key_return h lt ok = absurd (ground arith)
  press-Holds key_up h lt ok = absurd (ground arith)
  press-Holds key_down h lt ok = absurd (ground arith)

  edit-size : (l : Line) (k : Key) → (edit l k).size ≤ l.size + 1
  edit-size l key_backspace = ground arith
  edit-size l key_delete = omega arith
  edit-size l key_left = omega arith
  edit-size l key_right = omega arith
  edit-size l key_home = omega arith
  edit-size l key_end = omega arith
  edit-size l key_tab = omega arith
  edit-size l (other_key c) = ground arith
  edit-size l key_return = omega arith
  edit-size l key_up = omega arith
  edit-size l key_down = omega arith

  -- An editor holds a line, and keys are typed that do not end it or recall an older one. Where the line
  -- has room for a character for each of them, for one more, and for the end of the text, the editor goes
  -- on behind them all and holds the line with each key's edit made: a character goes in at the cursor, the
  -- backspace takes the one before it, and the others move the cursor.
  pub type_keys-Holds :
      (ks : List Key) {e : Editor} {l : Line}
      → Holds e l
      → l.size + length ks + 1 < e.max_buffer_size
      → all_edit ks ≡ true
      → ((type_keys ks e).0 ≡ true) × Holds (type_keys ks e).1 (edit_all ks l)
  unfolding type_keys
  type_keys-Holds [] h lt ok = (refl, h)
  type_keys-Holds (k ∷ ks) {e} {l} h lt ok =
      let is : is_edit k ≡ true = ground arith in
      let (more, r) = press-Holds k h (omega arith) is in
      rw more (type_keys-Holds ks r (omega (arith, press-max e k is, edit-size l k)) (ground arith))

  -- A line that has just been begun is empty.
  pub start_line-Holds :
      (size : ℕ) (b : ℕ → ℕ) (hist : History)
      → 1 < size
      → Holds (start_line size b hist) (record { char = λ k. 0; size = 0; cursor = 0 })
  unfolding start_line
  start_line-Holds size b hist lt = record {
    room = (ground arith, ground arith);
    fits = ground arith;
    cursor_in = omega arith;
    cursor_eq = refl;
    column_eq = refl;
    chars = λ k s. absurd (omega arith);
    ends = ground arith;
  }
