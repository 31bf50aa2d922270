-- ===== src/Client/ShellSplit/Quoted.antt =====
-- Quoting words and splitting them again (client/shellsplit.go).
use niks.Common.{
  ℕ, List, [], ◌∷◌, ◌++◌, true, false, nat_beq, contains, nat_eq, ◌≡◌, sym, ap, ◌∙◌, arith,
}
use mathlib.Core.List.{append_assoc, append-nil}
use niks.Client.ShellSplit.{
  Runes, SplitState, words_of, plain, in_single, split_loop, step_rune, split_end, shell_split,
}

-- No word has a single quote.
abbrev pub Quotable : List Runes → Type 0
Quotable [] = Unit {0}
Quotable (w ∷ ws) = (contains w b'\'' ≡ false) × Quotable ws

-- Each word in single quotes, with a space behind it.
unfoldable pub quoted : List Runes → Runes
quoted [] = []
quoted (w ∷ ws) = b'\'' ∷ (w ++ b'\'' ∷ b' ' ∷ quoted ws)

abbrev inside : List Runes → Runes → SplitState
inside words cur = record {
  words = words;
  cur = cur;
  started = true;
  state = in_single;
  escaped = false;
}

abbrev between : List Runes → SplitState
between words = record { words = words; cur = []; started = false; state = plain; escaped = false }

step_rune-inside :
    (r : ℕ) (words : List Runes) (cur : Runes)
    → nat_beq r b'\'' ≡ false
    → step_rune r (inside words cur) ≡ inside words (cur ++ (r ∷ []))
unfolding step_rune
step_rune-inside r words cur h = rw h

split_loop-inside :
    (w rest : Runes) (words : List Runes) (cur : Runes)
    → contains w b'\'' ≡ false
    → split_loop (w ++ b'\'' ∷ b' ' ∷ rest) (inside words cur)
      ≡ split_loop rest (between (words ++ ((cur ++ w) ∷ [])))
unfolding split_loop contains
split_loop-inside [] rest words cur h =
    ap (λ x. split_loop rest (between (words ++ (x ∷ [])))) (sym (append-nil cur))
split_loop-inside (r ∷ w) rest words cur h =
    ap (split_loop (w ++ b'\'' ∷ b' ' ∷ rest)) (step_rune-inside r words cur (ground (arith, h)))
    ∙ split_loop-inside w rest words (cur ++ (r ∷ [])) (ground (arith, h))
    ∙ ap (λ x. split_loop rest (between (words ++ (x ∷ [])))) (append_assoc cur (r ∷ []) w)

split_loop-quoted :
    (ws words : List Runes)
    → Quotable ws
    → split_loop (quoted ws) (between words) ≡ between (words ++ ws)
unfolding split_loop quoted
split_loop-quoted [] words q = ap between (sym (append-nil words))
split_loop-quoted (w ∷ ws) words q =
    split_loop-inside w (quoted ws) words [] q.0
    ∙ split_loop-quoted ws (words ++ (w ∷ [])) q.1
    ∙ ap between (append_assoc words (w ∷ []) ws)

-- Words without single quotes, each in single quotes and followed by a space, are split into the
-- same words again, empty words and words with spaces or backslashes included.
pub shell_split-quoted : (ws : List Runes) → Quotable ws → shell_split (quoted ws) ≡ words_of ws
unfolding shell_split
shell_split-quoted ws q = ap split_end (split_loop-quoted ws [] q)
