-- ===== src/Server/Gc/Kept.antt =====
-- What a collection leaves alone (server/closure_model.go, server/objects_model.go).
use niks.Common.{
  String, none, List, [], ◌∷◌, Bool, not, ◌&&◌, arith, ◌≡◌, is_none, contains, string_eq, ◌∙◌,
  if◌then◌else◌, contains-filterb, filterb,
}
use niks.Common.Table.{lookup, keys, contains-keys, lookup-delete_where}
use niks.Server.Db.{Db, is_pending}
use niks.Server.Gc.{delete_unpinned_closures, is_pinned, get_keys_not_pending}
use niks.Server.Gc.Sweep.{sweep_batch, Removal, is_deleted, CleanupStats}

-- Deleting old closures takes exactly the given ones that no pin names.
pub delete_unpinned_closures_exact :
    (ks : List String) (db : Db) (k : String)
    → contains (keys (delete_unpinned_closures ks db).0.closures) k
      ≡ (contains (keys db.closures) k && not (contains ks k && not (is_pinned db k)))
unfolding delete_unpinned_closures
delete_unpinned_closures_exact ks db k = ground (
  arith,
  contains-keys k (delete_unpinned_closures ks db).0.closures,
  contains-keys k db.closures,
  lookup-delete_where (λ (j : String). contains ks j && not (is_pinned db j)) k db.closures,
)

contains-not_pending :
    (ks : List String) (db : Db) (k : String)
    → contains (get_keys_not_pending ks db) k
      ≡ (not (is_none (lookup k db.objects)) && not (is_pending db k) && contains ks k)
unfolding get_keys_not_pending
contains-not_pending ks db k =
    contains-filterb (λ j. not (is_none (lookup j db.objects)) && not (is_pending db j)) ks k
    ∙ ground arith

-- A batch of the sweep drops exactly the rows of the locked keys that no push has declared since
-- and that S3 has deleted or confirms gone.
pub sweep_batch_exact :
    (remove : String → Removal) (absent : String → Bool) (locked : List String) (db : Db)
    (stats : CleanupStats) (k : String)
    → lookup k (sweep_batch remove absent locked db stats).0.objects ≡ (
        if contains locked k && not (is_pending db k) && is_deleted remove absent k
        then none
        else lookup k db.objects)
unfolding sweep_batch contains
sweep_batch_exact remove absent [] db stats k = ground arith
sweep_batch_exact remove absent (j ∷ js) db stats k =
    lookup-delete_where
      (λ (i : String).
        contains (filterb (is_deleted remove absent) (get_keys_not_pending (j ∷ js) db)) i)
      k db.objects
    ∙ ground (
      arith,
      contains-filterb (is_deleted remove absent) (get_keys_not_pending (j ∷ js) db) k,
      contains-not_pending (j ∷ js) db k,
    )
