-- ===== src/Client/Tests.antt =====
-- A batch with one path that the server refuses (client/streampush.go), and two words
-- (client/shellsplit.go).
use niks.Common.{
  nat_eq, ℕ, suc, String, none, some, List, [], ◌∷◌, true, false, if◌then◌else◌, contains,
  string_eq, ◌≡◌, refl, arith,
}
use niks.Client.StreamPush.{StreamPusher, upload}
use niks.Client.StreamPush.Reported.{reported, reported-upload, Refused}
use niks.Client.ShellSplit.{Runes, words_of, shell_split}
use niks.Client.ShellSplit.Quoted.{Quotable, quoted, shell_split-quoted}

abbrev pusher : StreamPusher ℕ
pusher = record {
  push = λ w ps. (if contains ps "bad" then some "refused" else none, suc w);
  cancelled = λ _. false;
  signatures = λ _. [];
  skipped = λ _. "";
}

abbrev batch : List String
batch = "a" ∷ "bad" ∷ []

reported-upload_example : reported (upload pusher batch 0).0 ≡ batch
reported-upload_example = reported-upload pusher batch 0

bad-Refused : Refused pusher "bad"
bad-Refused w ps m e = ground (arith, m, e)

member : contains batch "bad" ≡ true
unfolding contains
member = refl

-- The words "a b" and "".
abbrev two_words : List Runes
two_words = (b'a' ∷ b' ' ∷ b'b' ∷ []) ∷ [] ∷ []

two_words-Quotable : Quotable two_words
unfolding contains
two_words-Quotable = (refl, (refl, tt))

shell_split-quoted_example : shell_split (quoted two_words) ≡ words_of two_words
shell_split-quoted_example = shell_split-quoted two_words two_words-Quotable
