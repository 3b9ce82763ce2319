-- ===== src/Editor/Line.antt =====
-- What the keys do to the line that is edited, src/HAL9000/src/keyboard_utils.c.
use good_osd_project.Prelude.{
  ℕ, zero, suc, ◌+◌, ◌-◌, ◌^◌, ◌≡◌, ◌≢◌, ◌≤◌, ◌<◌, Bool, true, false, List, [], ◌∷◌, ltb, leb, ◌==◌,
  ◌&&◌, if◌then◌else◌, update, arith, refl, inl, inr, eq_cases,
}
use good_osd_project.Editor.{
  TextOps, Key, key_return, key_backspace, key_up, key_down, key_left, key_right, key_home, key_end,
  other_key, Editor, shift_left, shift_right, int_reaches, delete_before, insert_char,
}

-- A line: its characters, their number, and the place of the cursor among them.
pub record Line : Type 0 where
  pub char : ℕ → ℕ
  pub size : ℕ
  pub cursor : ℕ

-- What each key is for.
abbrev pub edit : Line → Key → Line
edit l key_backspace = if l.cursor == 0 then l else record {
  char = λ k. if ltb k (l.cursor - 1) then l.char k else l.char (k + 1);
  size = l.size - 1;
  cursor = l.cursor - 1;
}
edit l key_left = record l { cursor = l.cursor - 1 }
edit l key_right = record l { cursor = if ltb l.cursor l.size then l.cursor + 1 else l.cursor }
edit l key_home = record l { cursor = 0 }
edit l key_end = record l { cursor = l.size }
edit l (other_key c) = if c == 0 then l else record {
  char = λ k. if ltb k l.cursor then l.char k else (if k == l.cursor then c else l.char (k - 1));
  size = l.size + 1;
  cursor = l.cursor + 1;
}
edit l _ = l

abbrev pub edit_all : List Key → Line → Line
edit_all [] l = l
edit_all (k ∷ ks) l = edit_all ks (edit l k)

-- All keys but those that end the line or recall an older one.
abbrev pub is_edit : Key → Bool
is_edit key_return = false
is_edit key_up = false
is_edit key_down = false
is_edit _ = true

abbrev pub all_edit : List Key → Bool
all_edit [] = true
all_edit (k ∷ ks) = is_edit k && all_edit ks

-- The buffer of the editor holds the line, with its end, and the cursor is where it should be.
pub record Holds (e : Editor) (l : Line) : Type 0 where
  pub room : (2 ≤ e.max_buffer_size) × (e.max_buffer_size ≤ 78)
  pub fits : l.size < e.max_buffer_size
  pub cursor_in : l.cursor ≤ l.size
  pub cursor_eq : e.i ≡ l.cursor
  pub column_eq : e.cursor_column ≡ 3 + l.cursor
  pub chars : (k : ℕ) → k < l.size → (e.buffer k ≡ l.char k) × (l.char k ≢ 0)
  pub ends : e.buffer l.size ≡ 0

shift_right-at :
    ⦃T : TextOps⦄ (n : ℕ) (b : ℕ → ℕ) (i k : ℕ)
    → shift_right n b i k ≡ (if ltb i k && leb k (i + n) then b (k - 1) else b k)
unfolding shift_right
shift_right-at zero b i k = ground arith
shift_right-at (suc n) b i k =
    ground (arith, shift_right-at n (update b (i + n + 1) (b (i + n))) i k)

module _ ⦃T : TextOps⦄ where
  pub length_eq :
      {e : Editor} {l : Line} (max : ℕ)
      → Holds e l
      → l.size < max
      → T.strlen_s e.buffer max ≡ l.size
  length_eq {e} {l} max h lt =
      T.strlen_s_lem e.buffer max l.size lt (λ k s. ground (arith, h.chars k s)) h.ends

  pub insert_char-Holds :
      {e : Editor} {l : Line} (c : ℕ)
      → Holds e l
      → l.size + 1 < e.max_buffer_size
      → c ≢ 0
      → Holds (insert_char e c) (edit l (other_key c))
  unfolding insert_char
  insert_char-Holds {e} {l} c h lt real =
      let n = length_eq (e.max_buffer_size - 1) h (omega arith) in
      let (lo, hi) = h.room in
      let ci = h.cursor_in in
      let ce = h.cursor_eq in
      let co = h.column_eq in
      let z : (c == 0) ≡ false = ground arith in
      let m : (if ltb (T.strlen_s e.buffer (e.max_buffer_size - 1)) (2 ^ 31)
            then T.strlen_s e.buffer (e.max_buffer_size - 1) + 1 - e.i
            else 0)
          ≡ l.size + 1 - l.cursor =
        ground arith in
      rw (z, m)
        (record {
          room = h.room;
          fits = lt;
          cursor_in = omega arith;
          cursor_eq = omega arith;
          column_eq = omega arith;
          chars = λ k s. ground (
            arith,
            shift_right-at (l.size + 1 - l.cursor) e.buffer e.i k,
            h.chars k,
            h.chars (k - 1),
            real,
          );
          ends =
              ground
                (arith, shift_right-at (l.size + 1 - l.cursor) e.buffer e.i (l.size + 1), h.ends);
        })

  -- The loop of the backspace key, of a text of length `n`: behind the end, and from `j` on.
  shift_left-stops :
      (f : ℕ) (b : ℕ → ℕ) (max n : ℕ)
      → n < max
      → ((i : ℕ) → i < n → b i ≢ 0)
      → b n ≡ 0
      → shift_left f b max (n + 2) ≡ b
  unfolding shift_left
  shift_left-stops zero b max n lt text end = refl
  shift_left-stops (suc f) b max n lt text end =
      let s = T.strlen_s_lem b max n lt text end in ground (arith, s)

  shift_left-at :
      (f : ℕ) (b : ℕ → ℕ) (max j n k : ℕ)
      → 0 < j
      → j ≤ n
      → n < max
      → max < 2 ^ 31
      → n < j + f
      → ((i : ℕ) → i < n → b i ≢ 0)
      → b n ≡ 0
      → shift_left f b max j k ≡ (if leb (j - 1) k && ltb k n then b (k + 1) else b k)
  unfolding shift_left
  shift_left-at zero b max j n k pos le lt small fuel text end = absurd (omega arith)
  shift_left-at (suc f) b max j n k pos le lt small fuel text end =
      let s = T.strlen_s_lem b max n lt text end in
      let on : int_reaches (T.strlen_s b max) j ≡ true = ground (arith, s) in
      let b' = update b (j - 1) (b j) in
      rw on (elim (eq_cases j n) [
        | inl e ↦
            let q : j + 1 ≡ (n - 1) + 2 = omega arith in
            let stop =
              shift_left-stops f b' max (n - 1) (omega arith) (λ i s. ground (arith, text i))
                (ground arith) in
            rw (q, stop) (ground arith)
        | inr e ↦ ground (
          arith,
          shift_left-at f b' max (j + 1) n k (omega arith) (omega arith) lt small (omega arith)
              (λ i s. ground (arith, text i s, text j)) (ground arith),
        )
      ])

  pub delete_before-Holds :
      {e : Editor} {l : Line}
      → Holds e l
      → l.size + 1 < e.max_buffer_size
      → Holds (delete_before e) (edit l key_backspace)
  unfolding delete_before
  delete_before-Holds {e} {l} h lt = elim (eq_cases l.cursor 0) [
    | inl z ↦
        let x : (e.i == 0) ≡ true = ground (arith, h.cursor_eq) in
        let y : (l.cursor == 0) ≡ true = ground arith in rw (x, y) h
    | inr z ↦
        let x : (e.i == 0) ≡ false = ground (arith, h.cursor_eq) in
        let y : (l.cursor == 0) ≡ false = ground arith in
        let (lo, hi) = h.room in
        let ci = h.cursor_in in
        let ce = h.cursor_eq in
        let co = h.column_eq in
        let moved = λ (k : ℕ).
          shift_left-at (e.max_buffer_size + 1) e.buffer (e.max_buffer_size - 1) e.i l.size k
            (omega arith) (omega arith) (omega arith) (omega arith) (omega arith)
            (λ i s. ground (arith, h.chars i s)) h.ends in
        rw (x, y)
          (record {
            room = h.room;
            fits = omega arith;
            cursor_in = omega arith;
            cursor_eq = omega arith;
            column_eq = omega arith;
            chars = λ k s. ground (arith, moved k, h.chars k, h.chars (k + 1));
            ends = ground (arith, moved (l.size - 1), h.ends);
          })
  ]
