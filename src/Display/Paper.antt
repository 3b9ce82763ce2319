-- ===== src/Display/Paper.antt =====
-- What `DispPrintString` of src/HAL9000/src/display.c shows: the last lines of what a typewriter leaves on
-- paper without end.
use good_osd_project.Prelude.{
  ℕ, suc, ◌+◌, ◌-◌, ◌*◌, ◌%◌, ◌≡◌, ◌≤◌, ◌<◌, ◌⊎◌, inl, inr, true, false, List, [], ◌∷◌, ◌==◌,
  if◌then◌else◌, update, arith, refl, eq_cases, ◌∙◌, subst, Bool-cases, ◌⊎◌,
}
use good_osd_project.Display.{
  ScreenCharacter, DisplayData, chars_per_line, blank, newline_char, tab_char, space_char, put_char,
  clear_line, scroll_screen, make_room, write_char, print_space, print_char, print_string,
  preinit_screen, clear_screen, set_color,
}

-- Paper, by line and column, and the place of the next character on it.
pub record Paper : Type 0 where
  pub at : (line column : ℕ) → ScreenCharacter
  pub line : ℕ
  pub column : ℕ

-- A typewriter with lines of 80 characters.
unfoldable pub type_char : (color c : ℕ) → Paper → Paper
type_char color c p =
    let at' =
      update p.at p.line
        (update (p.at p.line) p.column (record { character = c; color = color })) in
    if c == newline_char
    then record p { line = p.line + 1; column = 0 }
    else (if p.column + 1 == chars_per_line
        then record { at = at'; line = p.line + 1; column = 0 }
        else record p { at = at'; column = p.column + 1 })

-- The same for a tab, which is four spaces.
unfoldable pub type_key : (color c : ℕ) → Paper → Paper
type_key color c p =
    let space = type_char color space_char in
    if c == tab_char then space (space (space (space p))) else type_char color c p

unfoldable pub type_string : (color : ℕ) → List ℕ → Paper → Paper
type_string color [] p = p
type_string color (c ∷ cs) p = type_string color cs (type_key color c p)

-- The lines of the paper from `k` on stand in the usable lines of the screen, one of which at least there
-- is; the rest of the memory is `m`.
pub record Shows (m : ℕ → ScreenCharacter) (first last k : ℕ) (d : DisplayData) (p : Paper)
    : Type 0 where
  pub first_line : d.index_of_first_valid_line ≡ first
  pub last_line : d.index_of_first_invalid_line ≡ last
  pub lines : (first < last) × (last < 256)
  pub start : d.start_of_usable_screen ≡ first * 80
  pub total : d.total_usable_characters ≡ (last - first) * 80
  pub line_eq : d.current_line + k ≡ first + p.line
  pub line_in : (first ≤ d.current_line) × (d.current_line ≤ last)
  pub column_eq : d.current_column ≡ p.column
  pub column_in : p.column < 80
  pub column_end : d.current_line ≡ last → p.column ≡ 0
  pub shown :
      (l c : ℕ) → l < last - first → c < 80 → d.memory ((first + l) * 80 + c) ≡ p.at (k + l) c
  pub outside : (i : ℕ) → (i < first * 80) ⊎ (last * 80 ≤ i) → d.memory i ≡ m i
  pub empty : (l c : ℕ) → (p.line < l) ⊎ ((p.line ≡ l) × (p.column ≤ c)) → p.at l c ≡ blank

-- Some lines of the paper are shown, and the screen's color is this one.
abbrev Printed : (m : ℕ → ScreenCharacter) (first last color : ℕ) → DisplayData → Paper → Type 0
Printed m first last color d p = (k : ℕ) × Shows m first last k d p × (d.current_color ≡ color)

pub scroll_screen-line :
    (d : DisplayData) (last : ℕ)
    → d.current_line ≡ last
    → 0 < last
    → last < 256
    → (scroll_screen d).current_line < last
unfolding scroll_screen clear_line
scroll_screen-line d last e pos small = omega arith

module _ {m : ℕ → ScreenCharacter} {first last : ℕ} where
  scroll_screen-Shows :
      {k : ℕ} {d : DisplayData} {p : Paper}
      → Shows m first last k d p
      → d.current_line ≡ last
      → Shows m first last (suc k) (scroll_screen d) p
  unfolding scroll_screen clear_line
  scroll_screen-Shows {k} {d} {p} s e =
      let (lt, small) = s.lines in
      let t = s.start in
      let u = s.total in
      let v = s.line_eq in
      let w = s.column_end e in
      let x : (d.current_line + 255) % 256 ≡ last - 1 = omega arith in
      record {
        first_line = s.first_line;
        last_line = s.last_line;
        lines = s.lines;
        start = s.start;
        total = s.total;
        line_eq = ground arith;
        line_in = (ground arith, ground arith);
        column_eq = s.column_eq;
        column_in = s.column_in;
        column_end = λ h. w;
        shown = λ l c lo hi. ground (arith, x, s.shown (suc l) c, s.empty (suc k + l) c);
        outside = λ i o. ground (arith, x, s.outside i o);
        empty = s.empty;
      }

  -- The test before a character makes room for it.
  make_room-Shows :
      {k : ℕ} {d : DisplayData} {p : Paper}
      → Shows m first last k d p
      → (j : ℕ) × Shows m first last j (make_room d) p
        × ((make_room d).current_line < last)
        × ((make_room d).current_color ≡ d.current_color)
  unfolding make_room scroll_screen clear_line
  make_room-Shows {k} {d} {p} s = elim (eq_cases d.current_line last) [
    | inl e ↦
        let (lt, small) = s.lines in
        let x : (d.index_of_first_invalid_line == d.current_line) ≡ true =
          ground (arith, s.last_line) in
        rw x (_, scroll_screen-Shows s e, scroll_screen-line d last e (omega arith) small, refl)
    | inr n ↦
        let x : (d.index_of_first_invalid_line == d.current_line) ≡ false =
          ground (arith, s.last_line) in
        rw x (_, s, ground (arith, s.line_in), refl)
  ]

  write_char-Shows :
      {k : ℕ} {d : DisplayData} {p : Paper} (c : ℕ)
      → Shows m first last k d p
      → d.current_line < last
      → Shows m first last k (write_char c d) (type_char d.current_color c p)
  unfolding write_char put_char type_char
  write_char-Shows {k} {d} {p} c s h =
      let (lt, small) = s.lines in
      let t = s.start in
      let u = s.total in
      let v = s.line_eq in
      let w = s.column_end in
      let y = s.column_eq in
      let z = s.column_in in
      let x : (d.current_line + 1) % 256 ≡ d.current_line + 1 = omega arith in
      let x' : (d.current_column + 1) % 256 ≡ d.current_column + 1 = omega arith in
      record {
        first_line = ground (arith, s.first_line);
        last_line = ground (arith, s.last_line);
        lines = s.lines;
        start = ground arith;
        total = ground arith;
        line_eq = ground arith;
        line_in = (ground (arith, s.line_in), ground (arith, s.line_in));
        column_eq = ground arith;
        column_in = ground arith;
        column_end = λ full. ground (arith, x, x', h);
        shown = λ l c' lo hi. ground (arith, x, x', s.shown l c' lo hi);
        outside = λ i o. ground (arith, x, s.outside i o);
        empty = λ l c' o. ground (arith, x, s.empty l c');
      }

  print-Printed :
      {color : ℕ} {d : DisplayData} {p : Paper} (c : ℕ)
      → Printed m first last color d p
      → Printed m first last color (write_char c (make_room d)) (type_char color c p)
  unfolding write_char put_char
  print-Printed {color} {d} {p} c (k, s, e) =
      let (j, r, lt, f) = make_room-Shows s in
      let w = write_char-Shows c r lt in
      let g : (make_room d).current_color ≡ color = f ∙ e in
      (
        j,
        subst (λ (x : ℕ). Shows m first last j (write_char c (make_room d)) (type_char x c p)) g w,
        ground (arith, g),
      )

  print_space-Printed :
      {color : ℕ} {d : DisplayData} {p : Paper}
      → Printed m first last color d p
      → Printed m first last color (print_space d) (type_char color space_char p)
  unfolding print_space
  print_space-Printed h = print-Printed space_char h

  print_char-Printed :
      {color : ℕ} {d : DisplayData} {p : Paper} (c : ℕ)
      → Printed m first last color d p
      → Printed m first last color (print_char c d) (type_key color c p)
  unfolding print_char type_key
  print_char-Printed {color} {d} {p} c h = elim (Bool-cases (c == tab_char)) [
    | inl e ↦
        let (j, r, lt, f) = make_room-Shows h.1 in
        rw e (
          print_space-Printed
            (print_space-Printed (print_space-Printed (print_space-Printed (j, r, f ∙ h.2)))))
    | inr e ↦ rw e (print-Printed c h)
  ]

  print_string-Printed :
      {color : ℕ} (cs : List ℕ) {d : DisplayData} {p : Paper}
      → Printed m first last color d p
      → Printed m first last color (print_string cs d) (type_string color cs p)
  unfolding print_string type_string
  print_string-Printed [] h = h
  print_string-Printed (c ∷ cs) h = print_string-Printed cs (print_char-Printed c h)

  -- The usable lines of the screen, of which there is one at least, show lines of the paper that a
  -- typewriter with lines of 80 characters has typed. Behind the printing of a text, in the screen's
  -- color, they show lines of the paper on which the text has been typed too, down to the line of the
  -- next character, and nothing is written beyond them.
  pub print_string-Shows :
      {k : ℕ} {d : DisplayData} {p : Paper} (cs : List ℕ)
      → Shows m first last k d p
      → (j : ℕ) × Shows m first last j (print_string cs d) (type_string d.current_color cs p)
  print_string-Shows cs s = let (j, r, e) = print_string-Printed cs (_, s, refl) in (j, r)

-- Paper that nothing has been typed on.
abbrev pub new_paper : Paper
new_paper = record { at = λ l c. blank; line = 0; column = 0 }

-- A screen that has just been set up shows it.
pub preinit_screen-Shows :
    (m : ℕ → ScreenCharacter) (first last : ℕ)
    → first < last
    → last < 256
    → Shows m first last 0 (preinit_screen m first last) new_paper
unfolding preinit_screen clear_screen set_color
preinit_screen-Shows m first last lt small = record {
  first_line = refl;
  last_line = refl;
  lines = (lt, small);
  start = refl;
  total = refl;
  line_eq = omega arith;
  line_in = (omega arith, omega arith);
  column_eq = refl;
  column_in = omega arith;
  column_end = λ h. refl;
  shown = λ l c lo hi. ground arith;
  outside = λ i o. ground arith;
  empty = λ l c o. refl;
}
