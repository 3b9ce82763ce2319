-- ===== src/Display/Restore.antt =====
-- `DispStoreBuffer` and `DispRestoreBuffer` of src/HAL9000/src/display.c around the printing of a text.
use good_osd_project.Prelude.{
  ℕ, ◌+◌, ◌-◌, ◌*◌, ◌%◌, ◌≡◌, ◌≤◌, ◌<◌, ◌⊎◌, inl, inr, Bool, true, false, List, [], ◌∷◌, ltb, ◌==◌,
  if◌then◌else◌, arith, eq_cases, subst, Bool-cases, some, Option, none, ap, sym,
}
use good_osd_project.Kernel.{Status, success, buffer_too_small}
use good_osd_project.Display.{
  ScreenCharacter, DisplayData, tab_char, space_char, put_char, clear_line, scroll_screen,
  make_room, write_char, print_space, print_char, print_string, store_buffer, restore_buffer,
}
use good_osd_project.Display.Paper.{scroll_screen-line}

-- What a successful `DispStoreBuffer` stores.
abbrev content : (ℕ → ScreenCharacter) → Status × Option (ℕ → ScreenCharacter) → ℕ → ScreenCharacter
content m (st, none) i = m i
content m (st, some f) i = f i

stored-at :
    (size : ℕ) (d : DisplayData) (b : ℕ → ScreenCharacter)
    → store_buffer size d ≡ (success, some b)
    → (ltb size (2 * d.total_usable_characters) ≡ false)
      × ((i : ℕ) → b i ≡ d.memory (d.start_of_usable_screen + i))
unfolding store_buffer
stored-at size d b h =
    let e : ltb size (2 * d.total_usable_characters) ≡ false = ground arith in
    let f : ℕ → ScreenCharacter = λ i. d.memory (d.start_of_usable_screen + i) in
    let q : Path (Status × Option (ℕ → ScreenCharacter)) (success, some f) (success, some b) =
      subst
        (λ (x : Bool).
          Path (Status × Option (ℕ → ScreenCharacter))
            (if x then (buffer_too_small, none) else (success, some f)) (success, some b))
        e h in
    (e, (λ i. ap (λ (o : Status × Option (ℕ → ScreenCharacter)). content d.memory o i) (sym q)))

-- The usable lines of the screen, of which there is one at least, go from `first` to `last`; the place of
-- the next character is on them or at the beginning of the line behind them; the memory outside them is
-- `m`. What stands on the lines does not matter.
pub record Framed (m : ℕ → ScreenCharacter) (first last : ℕ) (d : DisplayData) : Type 0 where
  pub first_line : d.index_of_first_valid_line ≡ first
  pub last_line : d.index_of_first_invalid_line ≡ last
  pub lines : (first < last) × (last < 256)
  pub start : d.start_of_usable_screen ≡ first * 80
  pub total : d.total_usable_characters ≡ (last - first) * 80
  pub line_in : (first ≤ d.current_line) × (d.current_line ≤ last)
  pub column_in : d.current_column < 80
  pub outside : (i : ℕ) → (i < first * 80) ⊎ (last * 80 ≤ i) → d.memory i ≡ m i

module _ {m : ℕ → ScreenCharacter} {first last : ℕ} where
  scroll_screen-Framed :
      {d : DisplayData}
      → Framed m first last d
      → d.current_line ≡ last
      → Framed m first last (scroll_screen d)
  unfolding scroll_screen clear_line
  scroll_screen-Framed {d} s e =
      let (lt, small) = s.lines in
      let t = s.start in
      let u = s.total in
      let x : (d.current_line + 255) % 256 ≡ last - 1 = omega arith in
      record {
        first_line = s.first_line;
        last_line = s.last_line;
        lines = s.lines;
        start = s.start;
        total = s.total;
        line_in = (ground arith, ground arith);
        column_in = s.column_in;
        outside = λ i o. ground (arith, x, s.outside i o);
      }

  make_room-Framed :
      {d : DisplayData}
      → Framed m first last d
      → Framed m first last (make_room d) × ((make_room d).current_line < last)
  unfolding make_room scroll_screen clear_line
  make_room-Framed {d} s = elim (eq_cases d.current_line last) [
    | inl e ↦
        let (lt, small) = s.lines in
        let x : (d.index_of_first_invalid_line == d.current_line) ≡ true =
          ground (arith, s.last_line) in
        rw x (scroll_screen-Framed s e, scroll_screen-line d last e (omega arith) small)
    | inr n ↦
        let x : (d.index_of_first_invalid_line == d.current_line) ≡ false =
          ground (arith, s.last_line) in
        rw x (s, ground (arith, s.line_in))
  ]

  write_char-Framed :
      {d : DisplayData} (c : ℕ)
      → Framed m first last d
      → d.current_line < last
      → Framed m first last (write_char c d)
  unfolding write_char put_char
  write_char-Framed {d} c s h =
      let (lt, small) = s.lines in
      let t = s.start in
      let u = s.total in
      let z = s.column_in in
      let x : (d.current_line + 1) % 256 ≡ d.current_line + 1 = omega arith in
      let x' : (d.current_column + 1) % 256 ≡ d.current_column + 1 = omega arith in
      record {
        first_line = ground (arith, s.first_line);
        last_line = ground (arith, s.last_line);
        lines = s.lines;
        start = ground arith;
        total = ground arith;
        line_in = (ground (arith, s.line_in), ground (arith, s.line_in));
        column_in = ground arith;
        outside = λ i o. ground (arith, x, s.outside i o, s.line_in);
      }

  print_space-Framed :
      {d : DisplayData} → Framed m first last d → Framed m first last (print_space d)
  unfolding print_space
  print_space-Framed s = let (r, h) = make_room-Framed s in write_char-Framed space_char r h

  print_char-Framed :
      {d : DisplayData} (c : ℕ) → Framed m first last d → Framed m first last (print_char c d)
  unfolding print_char
  print_char-Framed {d} c s =
      let (r, h) = make_room-Framed s in
      elim (Bool-cases (c == tab_char)) [
        | inl e ↦
            rw e
              (print_space-Framed (print_space-Framed (print_space-Framed (print_space-Framed r))))
        | inr e ↦ rw e (write_char-Framed c r h)
      ]

  print_string-Framed :
      (cs : List ℕ) {d : DisplayData}
      → Framed m first last d
      → Framed m first last (print_string cs d)
  unfolding print_string
  print_string-Framed [] s = s
  print_string-Framed (c ∷ cs) s = print_string-Framed cs (print_char-Framed c s)

  -- The screen has a usable line at least, and the place of its next character is on its usable lines
  -- or on the line behind them. It is stored, whatever it shows, a text is printed, and what was stored
  -- is restored, all with buffers that are large enough: every character of the memory is as it was
  -- before, and the place of the next character is again on the usable lines or on the line behind
  -- them.
  pub store-restore :
      {d : DisplayData} (size : ℕ) (cs : List ℕ) (b : ℕ → ScreenCharacter)
      → Framed m first last d
      → store_buffer size d ≡ (success, some b)
      → ((restore_buffer b size (print_string cs d)).0 ≡ success)
        × ((i : ℕ) → (restore_buffer b size (print_string cs d)).1.memory i ≡ d.memory i)
        × Framed m first last (restore_buffer b size (print_string cs d)).1
  unfolding restore_buffer
  store-restore {d} size cs b s h =
      let r = print_string-Framed cs s in
      let (fit, read) = stored-at size d b h in
      let t = s.total in
      let t' = r.total in
      let u = s.start in
      let u' = r.start in
      let (lt, small) = s.lines in
      let x : ltb size (2 * (print_string cs d).total_usable_characters) ≡ false = ground arith in
      let same : (i : ℕ) → (restore_buffer b size (print_string cs d)).1.memory i ≡ d.memory i =
        λ i. rw x (ground (arith, read (i - first * 80), s.outside i, r.outside i)) in
      (
        ground arith,
        same,
        rw x (record {
          first_line = r.first_line;
          last_line = r.last_line;
          lines = r.lines;
          start = r.start;
          total = r.total;
          line_in = (ground (arith, r.last_line), ground (arith, r.last_line));
          column_in = r.column_in;
          outside = λ i o. ground (arith, r.outside i o);
        }),
      )
