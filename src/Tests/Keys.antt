-- ===== src/Tests/Keys.antt =====
-- Runs of the line editor.
use good_osd_project.Prelude.{
  ℕ, zero, suc, ◌+◌, ◌≡◌, ◌≢◌, ◌<◌, ◌≤◌, true, false, List, [], ◌∷◌, refl, arith, if◌then◌else◌,
  ◌==◌, eq_cases, inl, inr,
}
use good_osd_project.Editor.{
  TextOps, Key, key_left, key_backspace, key_end, other_key, Editor, History, start_line, type_keys,
}
use good_osd_project.Editor.Line.{Line, Holds, edit_all}
use good_osd_project.Editor.Typing.{type_keys-Holds, start_line-Holds}

-- The first of `f` places from `k` on at which a text ends.
abbrev end_from : (b : ℕ → ℕ) → (k f : ℕ) → ℕ
end_from b k zero = k
end_from b k (suc f) = if b k == 0 then k else end_from b (k + 1) f

end_from_lem :
    (b : ℕ → ℕ) (k f n : ℕ)
    → k ≤ n
    → n < k + f
    → ((j : ℕ) → j < n → b j ≢ 0)
    → b n ≡ 0
    → end_from b k f ≡ n
end_from_lem b k zero n lo hi text end = absurd (omega arith)
end_from_lem b k (suc f) n lo hi text end = elim (eq_cases k n) [
  | inl e ↦ ground arith
  | inr e ↦
      let x : (b k == 0) ≡ false = ground (arith, text k) in
      rw x (end_from_lem b (k + 1) f n (omega arith) (omega arith) text end)
]

instance abbrev text_ops : TextOps
text_ops = record {
  strlen_s = λ b max. end_from b 0 max;
  strtrim = λ b. b;
  strncpy = λ to from n k. from k;
  strlen_s_lem = λ b max n lt text end. end_from_lem b 0 max n (omega arith) (omega arith) text end;
}

-- No line has been entered, and the buffer is not cleared.
abbrev no_history : History
no_history = record { cmd_history = λ slot k. 0; cmd_history_first_index = 0; cmd_history_size = 0 }

abbrev editor : Editor
editor = start_line 80 (λ k. 9) no_history

abbrev empty_line : Line
empty_line = record { char = λ k. 0; size = 0; cursor = 0 }

-- An "a", a "b" before it, and the "b" deleted again.
abbrev keys : List Key
keys = other_key 97 ∷ key_left ∷ other_key 98 ∷ key_backspace ∷ key_end ∷ []

editor-Holds : Holds editor empty_line
editor-Holds = start_line-Holds 80 (λ k. 9) no_history (omega arith)

few_keys : 0 + 5 + 1 < editor.max_buffer_size
unfolding start_line
few_keys = omega arith

type_keys-Holds_example :
    ((type_keys keys editor).0 ≡ true) × Holds (type_keys keys editor).1 (edit_all keys empty_line)
type_keys-Holds_example = type_keys-Holds keys editor-Holds few_keys refl
