-- ===== src/Editor.antt =====
-- The line editor of the command interpreter: `gets_s` of src/HAL9000/src/keyboard_utils.c, key by key.
-- What it draws between two keys is left out. A text is the function from indices to its bytes, and a
-- key is one of those that the function tests for, or another with what `KeyboardKeyToAscii` returns.
pub mod Line
pub mod Typing
use good_osd_project.Prelude.{
  ℕ, zero, suc, ◌+◌, ◌-◌, ◌*◌, ◌%◌, ◌^◌, ◌≡◌, ◌≢◌, ◌<◌, Bool, true, false, List, [], ◌∷◌, ltb, leb,
  ◌==◌, ◌&&◌, ◌||◌, not, if◌then◌else◌, update,
}
use good_osd_project.CommonLib.{max_dword}
use good_osd_project.Kernel.{byte, dword}

-- CommonLib's functions on texts: `strlen_s`, whose result is the length of a text that ends before the
-- limit, `strtrim`, and `strncpy`.
pub record TextOps : Type 0 where
  pub strlen_s : (ℕ → ℕ) → (max : ℕ) → ℕ
  pub strtrim : (ℕ → ℕ) → ℕ → ℕ
  pub strncpy : (to from : ℕ → ℕ) → (n : ℕ) → ℕ → ℕ
  pub strlen_s_lem :
      (b : ℕ → ℕ) (max n : ℕ) → n < max → ((k : ℕ) → k < n → b k ≢ 0) → b n ≡ 0 → strlen_s b max ≡ n

-- `KEYCODE`
pub data Key : Type 0 where
  key_return : Key
  key_backspace : Key
  key_delete : Key
  key_up : Key
  key_down : Key
  key_left : Key
  key_right : Key
  key_home : Key
  key_end : Key
  key_tab : Key
  other_key : (ascii : ℕ) → Key

-- The lines entered before, `m_CmdHistory` and its two counters.
pub record History : Type 0 where
  pub cmd_history : ℕ → ℕ → ℕ
  pub cmd_history_first_index : ℕ
  pub cmd_history_size : ℕ

-- The variables of `gets_s`
pub record Editor : Type 0 where
  pub buffer : ℕ → ℕ
  pub i : ℕ
  pub max_buffer_size : ℕ
  pub cursor_column : ℕ
  pub cmd_history_index : ℕ
  pub history : History

-- `CMD_SHELL_SIZE`, the size of ">>" with its end, and `CMD_HISTORY_MAX_SIZE`
abbrev pub cmd_shell_size : ℕ
cmd_shell_size = 3

abbrev pub cmd_history_max_size : ℕ
cmd_history_max_size = 16

-- The start of `gets_s`: the buffer of this size is cleared.
unfoldable pub start_line : (buffer_size : ℕ) → (ℕ → ℕ) → History → Editor
start_line size b h = record {
  buffer = λ k. if ltb k size then 0 else b k;
  i = 0;
  max_buffer_size = if ltb size (80 - cmd_shell_size + 1) then size else 80 - cmd_shell_size + 1;
  cursor_column = cmd_shell_size;
  cmd_history_index = max_dword;
  history = h;
}

-- Whether a `DWORD` that is cast to `int` is at least `j`.
abbrev pub int_reaches : (n j : ℕ) → Bool
int_reaches n j = ltb n (2 ^ 31) && leb j n

-- The slot of the newest line.
abbrev pub newest : History → ℕ
newest h = dword (h.cmd_history_first_index + h.cmd_history_size + max_dword) % cmd_history_max_size

module _ ⦃T : TextOps⦄ where
  -- The loop of the backspace key, for at most so many rounds. The length is read in each round.
  unfoldable pub shift_left : (rounds : ℕ) → (b : ℕ → ℕ) → (max j : ℕ) → ℕ → ℕ
  shift_left zero b max j = b
  shift_left (suc f) b max j =
      let rest = shift_left f (update b (j - 1) (b j)) max (j + 1) in
      if int_reaches (T.strlen_s b max) j then rest else b

  -- The loop before a character is written: `n` rounds, the last of them at `i`.
  unfoldable pub shift_right : (n : ℕ) → (b : ℕ → ℕ) → (i : ℕ) → ℕ → ℕ
  shift_right zero b i = b
  shift_right (suc n) b i = shift_right n (update b (i + n + 1) (b (i + n))) i

  -- The line of the history at this index is copied to the buffer.
  unfoldable pub recall : Editor → (index : ℕ) → Editor
  recall e index =
      let b = T.strncpy e.buffer (e.history.cmd_history index) (e.max_buffer_size - 1) in
      let n = T.strlen_s b e.max_buffer_size in
      record e {
        buffer = b;
        i = n;
        cursor_column = byte (cmd_shell_size + byte n);
        cmd_history_index = index;
      }

  -- The line is trimmed and remembered.
  unfoldable pub remember : Editor → Editor
  remember e =
      let h = e.history in
      let full = h.cmd_history_size == cmd_history_max_size in
      let first =
        if full
        then dword (h.cmd_history_first_index + 1) % cmd_history_max_size
        else h.cmd_history_first_index in
      let size = if full then h.cmd_history_size else h.cmd_history_size + 1 in
      let counted = record h { cmd_history_first_index = first; cmd_history_size = size } in
      let trimmed = T.strtrim e.buffer in
      let slot = newest counted in
      let line = T.strncpy (h.cmd_history slot) trimmed (e.max_buffer_size - 1) in
      record e {
        buffer = trimmed;
        history = record counted { cmd_history = update h.cmd_history slot line };
      }

  -- The keys up and down.
  unfoldable pub recall_older : Editor → Editor
  unfolding recall
  recall_older e =
      let h = e.history in
      let older =
        if e.cmd_history_index == h.cmd_history_first_index
        then e.cmd_history_index
        else dword (e.cmd_history_index + max_dword) % cmd_history_max_size in
      if h.cmd_history_size == 0
      then e
      else recall e (if e.cmd_history_index == max_dword then newest h else older)

  unfoldable pub recall_newer : Editor → Editor
  unfolding recall
  recall_newer e =
      let h = e.history in
      let newer =
        if e.cmd_history_index == newest h
        then e.cmd_history_index
        else (e.cmd_history_index + 1) % cmd_history_max_size in
      if h.cmd_history_size == 0 || e.cmd_history_index == max_dword then e else recall e newer

  -- The key backspace.
  unfoldable pub delete_before : Editor → Editor
  delete_before e = if e.i == 0 then e else record e {
    buffer = shift_left (e.max_buffer_size + 1) e.buffer (e.max_buffer_size - 1) e.i;
    cursor_column = byte (e.cursor_column + 255);
    i = e.i - 1;
  }

  -- A key with a character.
  unfoldable pub insert_char : Editor → ℕ → Editor
  insert_char e c =
      let n = T.strlen_s e.buffer (e.max_buffer_size - 1) in
      let b = shift_right (if ltb n (2 ^ 31) then n + 1 - e.i else 0) e.buffer e.i in
      if c == 0 then e else record e {
        buffer = update b e.i c;
        i = e.i + 1;
        cursor_column = byte (e.cursor_column + 1);
      }

  -- The keys that move the cursor.
  unfoldable pub move_left : Editor → Editor
  move_left e =
      if e.i == 0 then e else record e { cursor_column = byte (e.cursor_column + 255); i = e.i - 1 }

  unfoldable pub move_right : Editor → Editor
  move_right e =
      if ltb e.i (e.max_buffer_size - 2) && not (e.buffer e.i == 0)
      then record e { cursor_column = byte (e.cursor_column + 1); i = e.i + 1 }
      else e

  unfoldable pub move_home : Editor → Editor
  move_home e = record e { cursor_column = byte (e.cursor_column + 256 - byte e.i); i = 0 }

  unfoldable pub move_end : Editor → Editor
  move_end e =
      let n = T.strlen_s e.buffer e.max_buffer_size in
      record e { i = n; cursor_column = byte (cmd_shell_size + byte n) }

  -- A round of the loop of `gets_s`: whether it goes on, and the variables.
  unfoldable pub press : Editor → Key → Bool × Editor
  press e key_return = (false, if T.strlen_s e.buffer e.max_buffer_size == 0 then e else remember e)
  press e key_backspace = (true, delete_before e)
  press e key_delete = (true, e)
  press e key_up = (true, recall_older e)
  press e key_down = (true, recall_newer e)
  press e key_left = (true, move_left e)
  press e key_right = (true, move_right e)
  press e key_home = (true, if e.i == 0 then e else move_home e)
  press e key_end = (true, move_end e)
  press e key_tab = (true, e)
  press e (other_key c) = let e' = insert_char e c in (ltb e'.i (e.max_buffer_size - 1), e')

  -- The loop, for the keys that `getch` returns.
  unfoldable pub type_keys : List Key → Editor → Bool × Editor
  type_keys [] e = (true, e)
  type_keys (k ∷ ks) e =
      let (more, e') = press e k in let rest = type_keys ks e' in if more then rest else (false, e')
