-- ===== src/Hook/Queue/Fifo.antt =====
-- What the upload queue promises (hook/queue.go), on lists of distinct paths.
use niks.Common.{String, List, [], ◌∷◌, ◌++◌}
use niks.Common.{not, if◌then◌else◌, ◌==◌, string_eq, nat_eq}
use niks.Common.{contains}
use niks.Common.{filterb}

abbrev pub add : String → List String → List String
add p ps = if contains ps p then ps else ps ++ (p ∷ [])

unfoldable pub add_all : List String → List String → List String
add_all [] ps = ps
add_all (p ∷ new) ps = add_all new (add p ps)

abbrev pub without : List String → List String → List String
without gone ps = filterb (λ p. not (contains gone p)) ps

-- A queued path goes behind the others.
abbrev pub to_back : String → List String → List String
to_back p ps = if contains ps p then filterb (λ j. not (j == p)) ps ++ (p ∷ []) else ps

unfoldable pub all_to_back : List String → List String → List String
all_to_back [] ps = ps
all_to_back (p ∷ more) ps = all_to_back more (to_back p ps)
