-- ===== src/Tests/Screens.antt =====
-- Runs of the text screen.
use good_osd_project.Prelude.{ℕ, ◌+◌, ◌≡◌, some, [], ◌∷◌, List, refl, arith}
use good_osd_project.Kernel.{success}
use good_osd_project.Display.{
  ScreenCharacter, DisplayData, blank, preinit_screen, clear_screen, set_color, print_string,
  store_buffer, restore_buffer,
}
use good_osd_project.Display.Paper.{
  Shows, type_string, new_paper, preinit_screen-Shows, print_string-Shows,
}
use good_osd_project.Display.Restore.{Framed, store-restore}

-- Two usable lines below a first line, and a text of three lines with a tab.
abbrev memory : ℕ → ScreenCharacter
memory i = blank

abbrev screen : DisplayData
screen = preinit_screen memory 1 3

abbrev text : List ℕ
text = 72 ∷ 10 ∷ 9 ∷ 73 ∷ 10 ∷ 74 ∷ []

screen-Shows : Shows memory 1 3 0 screen new_paper
screen-Shows = preinit_screen-Shows memory 1 3 (omega arith) (omega arith)

print_string-Shows_example :
    (j : ℕ) × Shows memory 1 3 j
      (print_string text screen)
      (type_string screen.current_color text new_paper)
print_string-Shows_example = print_string-Shows text screen-Shows

-- A screen that shows a character in each place, as a restore leaves it, with the cursor behind the
-- usable lines.
abbrev full_screen : DisplayData
full_screen = record screen {
  memory = λ i. record { character = i; color = 7 };
  current_line = 3;
  current_column = 5;
}

abbrev full : ℕ → ScreenCharacter
full i = full_screen.memory i

full_screen-Framed : Framed full 1 3 full_screen
unfolding preinit_screen clear_screen set_color
full_screen-Framed = record {
  first_line = refl;
  last_line = refl;
  lines = (omega arith, omega arith);
  start = refl;
  total = refl;
  line_in = (omega arith, omega arith);
  column_in = omega arith;
  outside = λ i o. refl;
}

abbrev stored : ℕ → ScreenCharacter
stored i = full_screen.memory (full_screen.start_of_usable_screen + i)

stored_lem : store_buffer 320 full_screen ≡ (success, some stored)
unfolding store_buffer preinit_screen clear_screen set_color
stored_lem = refl

store-restore_example :
    ((restore_buffer stored 320 (print_string text full_screen)).0 ≡ success)
    × ((i : ℕ) → (restore_buffer stored 320 (print_string text full_screen)).1.memory i ≡ full i)
    × Framed full 1 3 (restore_buffer stored 320 (print_string text full_screen)).1
store-restore_example = store-restore 320 text stored full_screen-Framed stored_lem
