-- ===== src/Client/Multipart/Completes.antt =====
-- An upload that ends well was completed (client/multipart.go: uploadMultipart).
use niks.Common.{Option, none, some, Bool, true, false, ◌&&◌, if◌then◌else◌, ◌≡◌, refl}
use niks.Client.Multipart.{
  Server, Upload, uploaded, superseded, failed, out_of_fuel, superseded_by_peer, completed,
}

module _ (server : Server) where
  -- The server has accepted the parts of an upload that ends well.
  abbrev pub Completes : Upload → Type 0
  Completes (uploaded tags) = server.complete tags ≡ none
  Completes superseded = Unit
  Completes failed = Unit
  Completes out_of_fuel = Unit

  superseded_by_peer-Completes :
      (not_found : Bool) → Completes (superseded_by_peer server not_found)
  unfolding superseded_by_peer
  superseded_by_peer-Completes not_found = by_answer server.object_exists not_found
    where
      by_answer :
          (o : Option Bool) (not_found : Bool)
          → Completes (elim o [
            | none ↦ failed
            | some there ↦ if not_found && there then superseded else failed
          ])
      by_answer none not_found = tt
      by_answer (some true) true = tt
      by_answer (some false) true = tt
      by_answer (some there) false = tt

  pub completed-Completes : (r : Upload) → Completes (completed server r)
  completed-Completes superseded = tt
  completed-Completes failed = tt
  completed-Completes out_of_fuel = tt
  completed-Completes (uploaded tags) = by_answer (server.complete tags) refl
    where
      by_answer :
          (o : Option Bool)
          → server.complete tags ≡ o
          → Completes (elim o [
            | none ↦ uploaded tags
            | some not_found ↦ superseded_by_peer server not_found
          ])
      by_answer none e = e
      by_answer (some not_found) e = superseded_by_peer-Completes not_found
