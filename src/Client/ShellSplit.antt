-- ===== src/Client/ShellSplit.antt =====
-- Splitting a credential command into words (client/shellsplit.go). A rune is its code point.
pub mod Quoted
use niks.Common.{
  ℕ, Option, none, some, List, [], ◌∷◌, ◌++◌, Bool, true, false, ◌||◌, if◌then◌else◌, nat_beq,
}

abbrev pub Runes : Type 0
Runes = List ℕ

pub data SplitError : Type 0 where
  trailing_backslash unterminated_quote : SplitError

pub data SplitResult : Type 0 where
  words_of : List Runes → SplitResult
  split_error : SplitError → SplitResult

pub data QuoteState : Type 0 where
  plain in_single in_double : QuoteState

-- The loop's variables.
pub record SplitState : Type 0 where
  pub words : List Runes
  pub cur : Runes
  pub started : Bool
  pub state : QuoteState
  pub escaped : Bool

abbrev is_space : ℕ → Bool
is_space r = nat_beq r b' ' || nat_beq r b'\t' || nat_beq r b'\n'

-- What the loop does with a rune outside quotes.
unfoldable pub step_plain : ℕ → SplitState → SplitState
step_plain r s =
    if nat_beq r b'\\'
    then record s { escaped = true; started = true }
    else if nat_beq r b'\''
    then record s { state = in_single; started = true }
    else if nat_beq r b'"'
    then record s { state = in_double; started = true }
    else if is_space r
    then (if s.started
        then record s { words = s.words ++ (s.cur ∷ []); cur = []; started = false }
        else s)
    else record s { cur = s.cur ++ (r ∷ []); started = true }

-- One round of the loop.
unfoldable pub step_rune : ℕ → SplitState → SplitState
unfolding step_plain
step_rune r s =
    if s.escaped
    then record s { cur = s.cur ++ (r ∷ []); started = true; escaped = false }
    else (elim s.state [
      | plain ↦ step_plain r s
      | in_single ↦
          if nat_beq r b'\''
          then record s { state = plain }
          else record s { cur = s.cur ++ (r ∷ []) }
      | in_double ↦
          if nat_beq r b'\\'
          then record s { escaped = true }
          else if nat_beq r b'"'
          then record s { state = plain }
          else record s { cur = s.cur ++ (r ∷ []) }
    ])

unfoldable pub split_loop : Runes → SplitState → SplitState
unfolding step_rune
split_loop [] s = s
split_loop (r ∷ rs) s = split_loop rs (step_rune r s)

-- The checks behind the loop.
unfoldable pub split_end : SplitState → SplitResult
split_end s = if s.escaped then split_error trailing_backslash else (elim s.state [
  | in_single ↦ split_error unterminated_quote
  | in_double ↦ split_error unterminated_quote
  | plain ↦ words_of (if s.started then s.words ++ (s.cur ∷ []) else s.words)
])

abbrev pub split_start : SplitState
split_start = record { words = []; cur = []; started = false; state = plain; escaped = false }

unfoldable pub shell_split : Runes → SplitResult
unfolding split_loop split_end
shell_split s = split_end (split_loop s split_start)
