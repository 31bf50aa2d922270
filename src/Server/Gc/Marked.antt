-- ===== src/Server/Gc/Marked.antt =====
-- What MarkStaleObjects marks (server/pg/query.sql, called in server/objects_model.go).
use niks.Common.{
  ℕ, String, some, true, arith, ◌≡◌, ◌↔◌, ◌⊎◌, inl, inr, Bool-cases, is_none, contains, string_eq,
  ◌∙◌,
}
use niks.Common.Table.{lookup, keys}
use niks.Server.Db.{Object, Db, is_live, is_pending}
use niks.Server.Reach.{closure_reach}
use niks.Server.Reach.Exact.{Reaches, closure_reach_exact}
use niks.Server.Gc.{mark_stale_objects, is_stale}
use niks.Server.Gc.Rows.{mark_stale_objects_live}

-- An unmarked object is left unmarked exactly if a chain of references leads to it from a closure's
-- narinfo, or a pending push names it.
pub mark_stale_objects_exact :
    (now : ℕ) (db : Db) (k : String) (o : Object)
    → lookup k db.objects ≡ some o
    → is_none o.deleted_at ≡ true
    → (is_live (lookup k (mark_stale_objects now db).0.objects) ≡ true)
      ↔ (Reaches db.objects (keys db.closures) k ⊎ (is_pending db k ≡ true))
unfolding is_stale
mark_stale_objects_exact now db k o e live =
    let after = mark_stale_objects_live now db k o e in
    let (found, reached) = closure_reach_exact db.objects (keys db.closures) k in
    (
      λ h. elim (Bool-cases (contains (closure_reach db.objects (keys db.closures)) k)) [
        | inl r ↦ inl (found r)
        | inr r ↦ inr (ground (arith, h, after, r, live))
      ],
      λ h.
          after
          ∙ (elim h [ inl r ↦ ground (arith, reached r, live) | inr p ↦ ground (arith, p, live) ]),
    )
