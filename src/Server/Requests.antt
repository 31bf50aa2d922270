-- ===== src/Server/Requests.antt =====
-- The request that creates a push (server/pushes.go: CreatePushHandler; validateObjects of
-- server/uploads.go; createPendingClosure of server/pending_closure.go). Uploads in parts are
-- created one after the other. A map is a table, and goes through its rows in their order.
pub mod Offered
pub mod Declared
mod Tests
use niks.Common.{
  ℕ, String, Option, none, some, List, [], ◌∷◌, ◌++◌, map, Bool, true, false, not, ◌&&◌, ◌||◌,
  if◌then◌else◌, ltb, ◌==◌, string_eq, nat_eq, filterb, length, is_none,
}
use niks.Common.Table.{Table, lookup, upsert}
use niks.Server.Db.{Db, PendingObject, PendingClosure}
use niks.Server.Push.{ObjectWithRefs, has_suffix, create_pending_closure_inner, ok, err}
use niks.Server.Push as Push
use niks.Server.Keys.{bytes, is_valid_upload_key}
use niks.Server.Multipart.{
  Bucket, World, Answer, success, throttled, broken, use_simple_upload, create_multipart_upload,
}

abbrev pub Objects : Type 0
Objects = Table String ObjectWithRefs

-- `MaxNarSize` 0 is no limit.
abbrev pub too_large : ℕ → Option ℕ → Bool
too_large max_nar_size none = false
too_large max_nar_size (some size) = ltb 0 max_nar_size && ltb max_nar_size size

-- The objects by their key; `none` is a refusal.
unfoldable pub validate_objects : ℕ → List ObjectWithRefs → Objects → Option Objects
unfolding is_valid_upload_key upsert
validate_objects max_nar_size [] objects_map = some objects_map
validate_objects max_nar_size (o ∷ os) objects_map =
    let rest = validate_objects max_nar_size os (upsert o.key (λ _. o) objects_map) in
    if not (is_valid_upload_key (bytes o.key) o.kind)
    then none
    else if too_large max_nar_size o.nar_size
    then none
    else rest

-- `PendingObject` of the response: a URL for the object's type, or the URLs of an upload in parts.
pub data Offer : Type 0 where
  presigned_url : String → String → Offer
  multipart_info : String → List String → Offer

abbrev pub size_of : Option ObjectWithRefs → ℕ
size_of none = 0
size_of (some o) = elim o.nar_size [ none ↦ 0 | some n ↦ n ]

abbrev pub kind_of : Option ObjectWithRefs → String
kind_of none = ""
kind_of (some o) = o.kind

unfoldable pub needs_parts : Objects → PendingObject → Bool
unfolding use_simple_upload lookup
needs_parts objects_map r =
    kind_of (lookup r.key objects_map) == "nar"
    && not (use_simple_upload (size_of (lookup r.key objects_map)))

abbrev pub with_offer : String → Offer → Answer (Table String Offer) → Answer (Table String Offer)
with_offer key offer (success offers) = success ((key, offer) ∷ offers)
with_offer key offer throttled = throttled
with_offer key offer broken = broken

-- What the request comes to. A failed one is answered with 429 if S3 throttles it, and with 500
-- otherwise.
pub data Created : Type 0 where
  bad_request : Created
  failed : Created
  created : ℕ → Table String Offer → Created

abbrev pub both_offers :
    Answer (Table String Offer) → Answer (Table String Offer) → Answer (Table String Offer)
both_offers (success puts) (success parts) = success (puts ++ parts)
both_offers (success puts) throttled = throttled
both_offers (success puts) broken = broken
both_offers throttled parts = throttled
both_offers broken parts = broken

abbrev pub answer_offers : ℕ → Answer (Table String Offer) → Created
answer_offers id (success offers) = created id offers
answer_offers id throttled = failed
answer_offers id broken = failed

-- Each root is a narinfo among the objects.
unfoldable pub valid_roots : List String → Objects → Bool
unfolding has_suffix lookup
valid_roots [] objects_map = true
valid_roots (root ∷ roots) objects_map =
    has_suffix root ".narinfo"
    && not (is_none (lookup root objects_map))
    && valid_roots roots objects_map

module _ {S : Type 0} (s3 : Bucket S) where
  -- `makePresignedURL` for each object that needs no parts.
  unfoldable pub presigned_offers :
      Objects → List PendingObject → S → Answer (Table String Offer) × S
  unfolding lookup
  presigned_offers objects_map [] b = (success [], b)
  presigned_offers objects_map (r ∷ rs) b =
      let (go, b') = s3.wait b in
      let (url, b'') = s3.presign_put r.key b' in
      let (rest, end) = presigned_offers objects_map rs b'' in
      if go
      then (elim url [
        | success u ↦
            (with_offer r.key (presigned_url (kind_of (lookup r.key objects_map)) u) rest, end)
        | throttled ↦ (throttled, b'')
        | broken ↦ (broken, b'')
      ])
      else (broken, b')

  unfoldable pub multipart_offers :
      ℕ → Objects → List PendingObject → World S → Answer (Table String Offer) × World S
  unfolding create_multipart_upload lookup
  multipart_offers id objects_map [] w = (success [], w)
  multipart_offers id objects_map (r ∷ rs) w =
      let (made, w') = create_multipart_upload s3 id r.key (size_of (lookup r.key objects_map)) w in
      let (rest, end) = multipart_offers id objects_map rs w' in
      elim made [
        | success u ↦ (with_offer r.key (multipart_info u.0 u.1) rest, end)
        | throttled ↦ (throttled, w')
        | broken ↦ (broken, w')
      ]

  -- `createPendingObjects`; no upload in parts is begun unless all other URLs could be made.
  unfoldable pub create_pending_objects :
      ℕ → Objects → List PendingObject → World S → Answer (Table String Offer) × World S
  unfolding presigned_offers multipart_offers needs_parts filterb
  create_pending_objects id objects_map rows w =
      let (puts, b) =
        presigned_offers objects_map (filterb (λ r. not (needs_parts objects_map r)) rows)
          w.bucket in
      let (parts, w') =
        multipart_offers id objects_map (filterb (needs_parts objects_map) rows)
          (record w { bucket = b }) in
      (
        both_offers puts parts,
        elim puts [
          | success _ ↦ w'
          | throttled ↦ record w { bucket = b }
          | broken ↦ record w { bucket = b }
        ],
      )

  unfoldable pub create_pending_closure :
      (String → Push.Stat)
      → String
      → Option (List String)
      → Objects
      → Bool
      → ℕ
      → World S
      → Created × World S
  unfolding create_pending_closure_inner create_pending_objects
  create_pending_closure stat key roots objects_map verify_s3 now w =
      let (db, made) = create_pending_closure_inner stat key roots objects_map verify_s3 now w.db in
      elim made [
        | err e ↦ (failed, record w { db = db })
        | ok row ↦
            let (offers, w') =
              create_pending_objects row.0.id objects_map row.1 (record w { db = db }) in
            (answer_offers row.0.id offers, w')
      ]

  -- `CreatePushHandler`.
  unfoldable pub create_push :
      ℕ
      → (String → Push.Stat)
      → List String
      → List ObjectWithRefs
      → Bool
      → ℕ
      → World S
      → Created × World S
  unfolding validate_objects valid_roots create_pending_closure
  create_push max_nar_size stat [] objects verify_s3 now w = (bad_request, w)
  create_push max_nar_size stat (root ∷ roots) objects verify_s3 now w =
      if length objects == 0
      then (bad_request, w)
      else (elim (validate_objects max_nar_size objects []) [
        | none ↦ (bad_request, w)
        | some objects_map ↦
            if valid_roots (root ∷ roots) objects_map
            then create_pending_closure stat root (some (root ∷ roots)) objects_map verify_s3 now w
            else (bad_request, w)
      ])
