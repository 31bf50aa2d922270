-- ===== src/Server/Requests/Offered.antt =====
-- The offers are for the rows given (server/pending_closure.go: createPendingObjects).
use niks.Common.{
  ℕ, String, List, [], ◌∷◌, ◌++◌, Bool, true, false, not, if◌then◌else◌, string_eq, nat_eq, filterb,
  anyb, contains, contains-append, ◌≡◌, refl, ap, ◌∙◌, arith,
}
use niks.Common.Table.{Table, keys, lookup}
use niks.Server.Db.{PendingObject, lists_key}
use niks.Server.Multipart.{
  Bucket, World, Answer, success, throttled, broken, create_multipart_upload,
}
use niks.Server.Requests.{
  Objects, Offer, presigned_url, multipart_info, size_of, kind_of, needs_parts, with_offer,
  presigned_offers, multipart_offers, both_offers, create_pending_objects,
}

pub lists_key-filterb :
    (p : PendingObject → Bool) (rows : List PendingObject) (key : String)
    → lists_key (filterb p rows) key ≡ true
    → lists_key rows key ≡ true
unfolding anyb filterb
lists_key-filterb p [] key h = h
lists_key-filterb p (r ∷ rows) key h = ground (arith, h, lists_key-filterb p rows key)

-- Every offer is for one of the rows.
abbrev pub Within : List PendingObject → Answer (Table String Offer) → Type 0
Within rows (success offers) =
    (key : String) → contains (keys offers) key ≡ true → lists_key rows key ≡ true
Within rows throttled = Unit
Within rows broken = Unit

with_offer-Within :
    (r : PendingObject) (rows : List PendingObject) (offer : Offer)
    (a : Answer (Table String Offer))
    → Within rows a
    → Within (r ∷ rows) (with_offer r.key offer a)
unfolding contains anyb
with_offer-Within r rows offer (success offers) w = λ key h. ground (arith, h, w key)
with_offer-Within r rows offer throttled w = tt
with_offer-Within r rows offer broken w = tt

Within-filterb :
    (p : PendingObject → Bool) (rows : List PendingObject) (a : Answer (Table String Offer))
    → Within (filterb p rows) a
    → Within rows a
Within-filterb p rows (success offers) w = λ key h. lists_key-filterb p rows key (w key h)
Within-filterb p rows throttled w = tt
Within-filterb p rows broken w = tt

keys-append : (a b : Table String Offer) → keys (a ++ b) ≡ keys a ++ keys b
keys-append [] b = refl
keys-append (r ∷ a) b = ap (λ x. r.0 ∷ x) (keys-append a b)

module _ {S : Type 0} (s3 : Bucket S) where
  both_offers-Within :
      (rows : List PendingObject) (a b : Answer (Table String Offer))
      → Within rows a
      → Within rows b
      → Within rows (both_offers a b)
  both_offers-Within rows (success x) (success y) v w = λ key h. ground (
    arith,
    v key,
    w key,
    ap (λ ks. contains ks key) (keys-append x y) ∙ contains-append (keys x) (keys y) key,
    h,
  )
  both_offers-Within rows (success x) throttled v w = tt
  both_offers-Within rows (success x) broken v w = tt
  both_offers-Within rows throttled b v w = tt
  both_offers-Within rows broken b v w = tt

  presigned_offers-Within :
      (m : Objects) (rows : List PendingObject) (b : S)
      → Within rows (presigned_offers s3 m rows b).0
  unfolding presigned_offers anyb contains
  presigned_offers-Within m [] b = λ key h. h
  presigned_offers-Within m (r ∷ rows) b =
      let presigned = s3.presign_put r.key (s3.wait b).1 in
      by_answer (s3.wait b).0 presigned.0 (presigned_offers s3 m rows presigned.1) (s3.wait b).1
        presigned.1 (presigned_offers-Within m rows presigned.1)
    where
      by_answer :
          (go : Bool) (url : Answer String) (rest : Answer (Table String Offer) × S) (b' b'' : S)
          → Within rows rest.0
          → let a : Answer (Table String Offer) × S =
              if go
              then (elim url [
                | success u ↦
                    (with_offer r.key (presigned_url (kind_of (lookup r.key m)) u) rest.0, rest.1)
                | throttled ↦ (throttled, b'')
                | broken ↦ (broken, b'')
              ])
              else (broken, b') in
            Within (r ∷ rows) a.0
      by_answer false url rest b' b'' w = tt
      by_answer true (success u) rest b' b'' w = with_offer-Within r rows _ rest.0 w
      by_answer true throttled rest b' b'' w = tt
      by_answer true broken rest b' b'' w = tt

  multipart_offers-Within :
      (id : ℕ) (m : Objects) (rows : List PendingObject) (w : World S)
      → Within rows (multipart_offers s3 id m rows w).0
  unfolding multipart_offers anyb contains
  multipart_offers-Within id m [] w = λ key h. h
  multipart_offers-Within id m (r ∷ rows) w =
      let made = create_multipart_upload s3 id r.key (size_of (lookup r.key m)) w in
      by_answer made.0 (multipart_offers s3 id m rows made.1) made.1
        (multipart_offers-Within id m rows made.1)
    where
      by_answer :
          (made : Answer (String × List String)) (rest : Answer (Table String Offer) × World S)
          (w' : World S)
          → Within rows rest.0
          → let a : Answer (Table String Offer) × World S = elim made [
            | success u ↦ (with_offer r.key (multipart_info u.0 u.1) rest.0, rest.1)
            | throttled ↦ (throttled, w')
            | broken ↦ (broken, w')
          ] in
            Within (r ∷ rows) a.0
      by_answer (success u) rest w' v = with_offer-Within r rows _ rest.0 v
      by_answer throttled rest w' v = tt
      by_answer broken rest w' v = tt

  pub create_pending_objects-Within :
      (id : ℕ) (m : Objects) (rows : List PendingObject) (w : World S)
      → Within rows (create_pending_objects s3 id m rows w).0
  unfolding create_pending_objects
  create_pending_objects-Within id m rows w =
      both_offers-Within rows _ _
        (Within-filterb (λ r. not (needs_parts m r)) rows _ (presigned_offers-Within m _ w.bucket))
        (Within-filterb (needs_parts m) rows _ (multipart_offers-Within id m _ _))
