-- ===== src/Server/Reach.antt =====
-- The recursive queries of server/pg/query.sql that follow references.
pub mod Exact
use niks.Common.{
  ℕ, zero, suc, ◌+◌, ◌-◌, ◌*◌, ◌≤◌, ◌<◌, String, Option, none, some, List, [], ◌∷◌, ◌++◌, map,
}
use niks.Common.{
  Bool, true, false, not, ◌&&◌, ◌||◌, if◌then◌else◌, ltb, leb, ◌==◌, Eq, string_eq, nat_eq, ==_refl,
}
use niks.Common.{
  ◌≡◌, refl, sym, ap, subst, ◌∙◌, ◌≢◌, ◌↔◌, ◌⊎◌, inl, inr, arith, Bool-cases, Option-cases, is_none,
}
use niks.Common.{
  contains, dedup, subset, contains-append, contains-filterb, contains-dedup, subset→contains,
}
use niks.Common.{
  length, take, drop, filterb, anyb, length-append, length-filterb-le, filterb-append,
  take-append-drop,
}
use niks.Common.Table.{Table, keys, lookup}
use niks.Server.Db.{Object}

abbrev pub Objects : Type 0
Objects = Table String Object

unfoldable pub refs_of : Objects → String → List String
unfolding lookup
refs_of objs k = elim (lookup k objs) [ none ↦ [] | some o ↦ o.refs ]

-- `o.key = ANY(cr.refs)` for some row of the working table.
unfoldable pub is_referenced : Objects → List String → String → Bool
unfolding anyb refs_of contains
is_referenced objs ks k = anyb (λ j. contains (refs_of objs j) k) ks

-- One round of the recursive part: what was reached, and each object that one of these names.
unfoldable pub grow : Objects → List String → List String
unfolding is_referenced filterb contains
grow objs ks = filterb (λ k. contains ks k || is_referenced objs ks k) (keys objs)

unfoldable pub rounds : ℕ → Objects → List String → List String
unfolding grow
rounds zero objs ks = ks
rounds (suc n) objs ks = rounds n objs (grow objs ks)

-- `closure_reach` from the given keys. A round that adds nothing changes nothing, so as many
-- rounds as there are rows do what the database's loop until an empty round does.
unfoldable pub closure_reach : Objects → List String → List String
unfolding rounds
closure_reach objs seeds = rounds (length objs) objs (filterb (λ k. contains seeds k) (keys objs))
