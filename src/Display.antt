-- ===== src/Display.antt =====
-- The text screen, src/HAL9000/src/display.c. The screen's memory is its characters by their index from
-- `MappedScreenAddress` on, 80 to a line; a character is a byte and a color. The memory is the card's,
-- and its size is not checked by the code.
pub mod Paper
pub mod Restore
use good_osd_project.Prelude.{
  ℕ, suc, ◌+◌, ◌-◌, ◌*◌, ◌/◌, ◌%◌, ◌^◌, Bool, List, [], ◌∷◌, ltb, leb, ◌==◌, ◌&&◌, if◌then◌else◌,
  update, Option, none, some,
}
use good_osd_project.Kernel.{Status, success, buffer_too_small, byte, dword}

-- `SCREEN_CHARACTER`
pub record ScreenCharacter : Type 0 where
  pub character : ℕ
  pub color : ℕ

-- `DISPLAY_DATA`, with the memory of the screen; `start_of_usable_screen` and the total are numbers of
-- characters.
pub record DisplayData : Type 0 where
  pub memory : ℕ → ScreenCharacter
  pub start_of_usable_screen : ℕ
  pub total_usable_characters : ℕ
  pub current_column : ℕ
  pub current_line : ℕ
  pub current_color : ℕ
  pub index_of_first_valid_line : ℕ
  pub index_of_first_invalid_line : ℕ

abbrev pub chars_per_line : ℕ
chars_per_line = 80

abbrev pub white_color : ℕ
white_color = 7

-- A cleared character, and the memory with `n` characters cleared from `start` on.
abbrev pub blank : ScreenCharacter
blank = record { character = 0; color = 0 }

abbrev pub memzero : (ℕ → ScreenCharacter) → (start n : ℕ) → ℕ → ScreenCharacter
memzero m start n i = if leb start i && ltb i (start + n) then blank else m i

-- The memory with the `n` characters from `from` on copied to `to`.
abbrev pub memmove : (ℕ → ScreenCharacter) → (to from n : ℕ) → ℕ → ScreenCharacter
memmove m to from n i = if leb to i && ltb i (to + n) then m (i - to + from) else m i

-- `DispSetColor`
unfoldable pub set_color : ℕ → DisplayData → DisplayData
set_color color d = record d { current_color = color }

-- `DispClearScreen`
unfoldable pub clear_screen : DisplayData → DisplayData
clear_screen d = record d {
  memory = memzero d.memory d.start_of_usable_screen d.total_usable_characters;
  current_line = d.index_of_first_valid_line;
}

-- `DispPreinitScreen`, for the screen with this memory
unfoldable pub preinit_screen :
    (ℕ → ScreenCharacter) → (first_usable_row first_unusable_row : ℕ) → DisplayData
unfolding clear_screen set_color
preinit_screen m first last = clear_screen (
    set_color white_color (record {
      memory = m;
      start_of_usable_screen = first * chars_per_line;
      total_usable_characters = (last - first) * chars_per_line;
      current_column = 0;
      current_line = first;
      current_color = 0;
      index_of_first_valid_line = first;
      index_of_first_invalid_line = last;
    }))

-- `_DispPutChar`
unfoldable pub put_char : ℕ → (line column : ℕ) → DisplayData → DisplayData
put_char c line column d = record d {
  memory =
      update d.memory (line * chars_per_line + column)
        (record { character = c; color = d.current_color });
}

-- `DispClearLine`
unfoldable pub clear_line : ℕ → DisplayData → DisplayData
clear_line line d = record d { memory = memzero d.memory (line * chars_per_line) chars_per_line }

-- `_DispScrollScreen`
unfoldable pub scroll_screen : DisplayData → DisplayData
unfolding clear_line
scroll_screen d =
    let start = d.start_of_usable_screen in
    let moved =
      memmove d.memory start (start + chars_per_line)
        (d.total_usable_characters - chars_per_line) in
    let line = byte (d.current_line + 255) in
    clear_line line (record d { memory = moved; current_line = line })

-- The test of `DispPrintString` before each character.
unfoldable pub make_room : DisplayData → DisplayData
unfolding scroll_screen
make_room d = if d.index_of_first_invalid_line == d.current_line then scroll_screen d else d

-- The end of its loop, for a new line.
abbrev pub new_line : DisplayData → DisplayData
new_line d = record d { current_line = byte (d.current_line + 1); current_column = 0 }

abbrev pub newline_char : ℕ
newline_char = 10

abbrev pub tab_char : ℕ
tab_char = 9

abbrev pub space_char : ℕ
space_char = 32

-- A round of its loop behind the test, for a character that is no tab.
unfoldable pub write_char : ℕ → DisplayData → DisplayData
unfolding put_char
write_char c d =
    let put = put_char c d.current_line d.current_column d in
    let next = record put { current_column = byte (d.current_column + 1) } in
    if c == newline_char
    then new_line d
    else (if next.current_column == chars_per_line then new_line next else next)

-- A round of the call that prints the spaces of a tab.
unfoldable pub print_space : DisplayData → DisplayData
print_space d = write_char space_char (make_room d)

-- A round of the loop of `DispPrintString`.
unfoldable pub print_char : ℕ → DisplayData → DisplayData
print_char c d =
    let r = make_room d in
    let tabbed = print_space (print_space (print_space (print_space r))) in
    if c == tab_char then tabbed else write_char c r

-- `DispPrintString`
unfoldable pub print_string : List ℕ → DisplayData → DisplayData
print_string [] d = d
print_string (c ∷ cs) d = print_string cs (print_char c d)

-- The loop of `DispPutBufferColor`, from the index `i` on.
unfoldable pub put_buffer : List ℕ → (i line column : ℕ) → DisplayData → DisplayData
unfolding put_char
put_buffer [] i line column d = d
put_buffer (c ∷ cs) i line column d =
    let rest = put_buffer cs (byte (i + 1)) line column (put_char c line (byte (column + i)) d) in
    if ltb (i + column) chars_per_line then rest else d

-- `DispPutBufferColor`
unfoldable pub put_buffer_color : List ℕ → (line column color : ℕ) → DisplayData → DisplayData
unfolding put_buffer set_color
put_buffer_color b line column color d =
    set_color d.current_color (put_buffer b 0 line column (set_color color d))

-- `DispStoreBuffer`, of a size in characters, each of 2 bytes: `none` where nothing is stored.
unfoldable pub store_buffer : (size : ℕ) → DisplayData → Status × Option (ℕ → ScreenCharacter)
store_buffer size d =
    if ltb size (2 * d.total_usable_characters)
    then (buffer_too_small, none)
    else (success, some (λ i. d.memory (d.start_of_usable_screen + i)))

-- `DispRestoreBuffer`
unfoldable pub restore_buffer :
    (ℕ → ScreenCharacter) → (size : ℕ) → DisplayData → Status × DisplayData
restore_buffer b size d =
    let start = d.start_of_usable_screen in
    let restored = λ (i : ℕ).
      if leb start i && ltb i (start + d.total_usable_characters)
      then b (i - start)
      else d.memory i in
    if ltb size (2 * d.total_usable_characters)
    then (buffer_too_small, d)
    else (success, record d { memory = restored; current_line = d.index_of_first_invalid_line })
