-- ===== src/Input/History.antt =====
-- The history is a stack of at most 20 commands, and its two directions undo each other.
use text_os.Common.{
  ℕ, zero, suc, ◌+◌, ◌-◌, ◌≤◌, ◌<◌, ◌≡◌, refl, ap, true, false, none, some, List, [], length, ltb,
  if◌then◌else◌, arith, min, lt→ltb, Option-cases, inl, inr,
}
use text_os.Terminal.{Terminal}
use text_os.Input.{
  History, TerminalInput, set_entry, shift_down, set_input_ready, navigate_history, history_up,
  history_down, above_index,
}

shift_down_at :
    (n : ℕ) (h : History) (j : ℕ)
    → shift_down n h j ≡ (if ltb 0 j then (if ltb n j then h j else h (j - 1)) else h j)
unfolding shift_down
shift_down_at zero h j = ground arith
shift_down_at (suc n) h j = ground (arith, shift_down_at n (set_entry h (suc n) (h n)) j)

-- The commands of `t'` are those of `t` with `command` in front, cut to 20.
pub record IsPushed (command : List ℕ) (t t' : TerminalInput) : Type 0 where
  pub count : t'.history_count ≡ min 20 (t.history_count + 1)
  pub newest : t'.command_history 0 ≡ command
  pub older : (i : ℕ) → i + 1 < 20 → t'.command_history (i + 1) ≡ t.command_history i
  pub ready : t'.input_ready ≡ true
  pub entered : t'.input_buffer ≡ command
  pub index : t'.history_index ≡ none

-- With at most 20 entries, entering a command that is not empty puts it in front of the history,
-- which drops the entry behind the 20th, and resets the index.
pub set_input_ready-IsPushed :
    (command : List ℕ) (t : TerminalInput)
    → 0 < length command
    → t.history_count ≤ 20
    → IsPushed command t (set_input_ready command t)
unfolding set_input_ready
set_input_ready-IsPushed command t some_char h = rw (lt→ltb 0 (length command) some_char) (record {
  count = ground arith;
  newest = refl;
  older = λ i lt. ground (arith, shift_down_at 19 t.command_history (i + 1), one_back i);
  ready = refl;
  entered = refl;
  index = refl;
})
  where
    one_back : (i : ℕ) → t.command_history (i + 1 - 1) ≡ t.command_history i
    one_back i = ap t.command_history (omega arith)

-- Up and then down again, from an entry that is not the oldest, is back at that entry with its
-- command in the buffer; from no entry, back at none with an empty buffer.
pub navigate_history_back :
    (t : TerminalInput) (s : Terminal)
    → above_index t.history_index < t.history_count
    → ((navigate_history false
          (navigate_history true t s).0
          (navigate_history true t s).1).0.history_index
        ≡ t.history_index)
      × ((navigate_history false
            (navigate_history true t s).0
            (navigate_history true t s).1).0.input_buffer
          ≡ (elim (t.history_index) [ none ↦ [] | some i ↦ t.command_history i ]))
unfolding navigate_history history_up history_down
navigate_history_back t s h =
    simp (lt→ltb (above_index t.history_index) t.history_count h)
      (elim (Option-cases t.history_index) [
        | inl e ↦ simp e (refl, refl)
        | inr (i, e) ↦ simp e (refl, refl)
      ])
