-- ===== src/Server/Upstream/Fill/Trusted.antt =====
-- What fills put into the bucket (server/upstream.go).
use niks.Common.{
  ℕ, String, Option, none, some, List, [], ◌∷◌, ◌++◌, Bool, true, false, if◌then◌else◌, nat_eq,
  list_eq, string_eq, take, length, ◌-◌, ◌≡◌, refl, Bool-cases, inl, inr,
}
use niks.Server.Db.{Db, PendingObject, PendingClosure}
use niks.Server.Push as Push
use niks.Server.Push.{ok, err, Result, create_pending_closure_inner, commit_pending_closure}
use niks.Server.Keys.{Key, bytes}
use niks.Server.Sign.{Signer}
use niks.Server.Multipart.{Bucket, World, Stat, found, no_such_key, stat_failed}
use niks.Server.Uploads.{object_exists_in_s3}
use niks.Server.Upstream.Narinfo.{UpstreamNarinfo}
use niks.Server.Upstream.Fetch.{
  Upstream, Web, Fetched, miss, bad_narinfo, fetched, read_reply, fetch_upstream_narinfo,
}
use niks.Server.Upstream.Fetch.Checked.{Trusted, read_reply-Trusted}
use niks.Server.Upstream.Misses.{Misses, recent}
use niks.Server.Upstream.Fill.{
  narinfo_key_of, sign_all, after_commit, committed, put_narinfo, store_narinfo, after_copy,
  after_create, store_upstream_path, after_answer, fill_each, fill_once, fill_from_upstream,
}
use niks.Server.Upstream.Fill.Outlasts.{
  Among, first, later, Outlasts, sign_all-append, put_object-keeps, copy_pending-keeps,
}

module _ {K S : Type 0} (s3 : Bucket S) (web : Web K S) (upstreams : List (Upstream K)) (hash : Key)
    (max_nar_size : ℕ) (I : S → Type 0) where
  module _ (o : Outlasts s3 web upstreams hash max_nar_size I) where
    committed-keeps :
        (id now : ℕ) (w : World S) (stored : Bool × S)
        → I stored.1
        → I (committed s3 web id now w stored).1.bucket
    committed-keeps id now w (true, b) i = by_commit (commit_pending_closure id now w.db)
      where
        by_commit : (r : Result (Db × ℕ)) → I (after_commit s3 web w b r).1.bucket
        by_commit (err e) = i
        by_commit (ok result) = i
    committed-keeps id now w (false, b) i = i

    store_narinfo-keeps :
        (signers : List Signer) (u : Upstream K) (info : UpstreamNarinfo) (id now : ℕ) (w : World S)
        → Among u upstreams
        → Trusted web u hash max_nar_size info
        → I w.bucket
        → I (store_narinfo s3 web signers info id now w).1.bucket
    unfolding store_narinfo
    store_narinfo-keeps signers u info id now w a t i =
        by_signatures
          (sign_all (narinfo_key_of info.nar_info.store_path) info.nar_info signers info.sigs)
          (sign_all-append (narinfo_key_of info.nar_info.store_path) info.nar_info signers
            info.sigs)
      where
        by_signatures :
            (all : Option (List Key))
            → ((sigs : List Key) → all ≡ some sigs → (more : List Key) × (sigs ≡ info.sigs ++ more))
            → I (put_narinfo s3 web info id now w all).1.bucket
        by_signatures none appended = i
        by_signatures (some sigs) appended =
            let (more, same) = appended sigs refl in
            committed-keeps id now w _ (
              put_object-keeps s3 web upstreams hash max_nar_size I o _ _ false w.bucket
                (λ b i. rw same (o.narinfo u info more b a t i)) i)

    after_copy-keeps :
        (signers : List Signer) (u : Upstream K) (info : UpstreamNarinfo) (id now : ℕ) (w : World S)
        (copied : Bool × S)
        → Among u upstreams
        → Trusted web u hash max_nar_size info
        → I copied.1
        → I (after_copy s3 web signers info id now w copied).1.bucket
    after_copy-keeps signers u info id now w (true, b) a t i =
        store_narinfo-keeps signers u info id now (record w { bucket = b }) a t i
    after_copy-keeps signers u info id now w (false, b) a t i = i

    after_create-keeps :
        (signers : List Signer) (u : Upstream K) (info : UpstreamNarinfo) (now : ℕ) (w : World S)
        (made : Db × Result (PendingClosure × List PendingObject))
        → Among u upstreams
        → Trusted web u hash max_nar_size info
        → I w.bucket
        → I (after_create s3 web signers u info now w made).1.bucket
    after_create-keeps signers u info now w (db, err e) a t i = i
    after_create-keeps signers u info now w (db, ok row) a t i =
        after_copy-keeps signers u info row.0.id now (record w { db = db }) _ a t
          (copy_pending-keeps s3 web upstreams hash max_nar_size I o u info a t row.1 w.bucket i)

    store_upstream_path-keeps :
        (stat : String → Push.Stat) (signers : List Signer) (u : Upstream K)
        (info : UpstreamNarinfo) (now : ℕ) (w : World S)
        → Among u upstreams
        → Trusted web u hash max_nar_size info
        → I w.bucket
        → I (store_upstream_path s3 web stat signers u info now w).1.bucket
    unfolding store_upstream_path
    store_upstream_path-keeps stat signers u info now w a t i =
        after_create-keeps signers u info now w _ a t i

    module _ (stat : String → Push.Stat) (signers : List Signer) (now : ℕ) where
      after_answer-keeps :
          (u : Upstream K) (answer : Fetched) (w : World S) (misses : Misses)
          (next : Bool × (World S × Misses))
          → Among u upstreams
          → ((info : UpstreamNarinfo)
              → answer ≡ fetched info
              → Trusted web u hash max_nar_size info)
          → I w.bucket
          → I next.1.0.bucket
          → I (after_answer s3 web stat signers now u w misses next answer).1.0.bucket
      after_answer-keeps u miss w misses next a t i n = n
      after_answer-keeps u bad_narinfo w misses next a t i n = n
      after_answer-keeps u (fetched info) w misses next a t i n =
          store_upstream_path-keeps stat signers u info now w a (t info refl) i

      fill_each-keeps :
          (us : List (Upstream K)) (w : World S) (misses : Misses)
          → ((u : Upstream K) → Among u us → Among u upstreams)
          → I w.bucket
          → I (fill_each s3 web stat signers now max_nar_size hash us w misses).1.0.bucket
      unfolding fill_each fetch_upstream_narinfo
      fill_each-keeps [] w misses sub i = i
      fill_each-keeps (u ∷ us) w misses sub i =
          let url = u.url ++ bytes "/" ++ hash ++ bytes ".narinfo" in
          let asked : World S = record w { bucket = (web.get url w.bucket).1 } in
          let i' = o.get url w.bucket i in
          after_answer-keeps u (read_reply web u.key hash max_nar_size (web.get url w.bucket).0)
            asked misses _ (sub u first)
            (read_reply-Trusted web u hash max_nar_size (web.get url w.bucket).0) i'
            (fill_each-keeps us asked misses (λ v a. sub v (later a)) i')

      fill_once-keeps :
          (w : World S) (misses : Misses)
          → I w.bucket
          → I (fill_once s3 web stat signers now max_nar_size hash upstreams w misses).1.0.bucket
      unfolding fill_once
      fill_once-keeps w misses i = elim (Bool-cases (recent hash now misses)) [
        | inl e ↦ rw e i
        | inr e ↦ rw e (fill_each-keeps upstreams w misses (λ u a. a) i)
      ]

      object_exists_in_s3-keeps : (key : String) (b : S) → I b → I (object_exists_in_s3 s3 key b).1
      unfolding object_exists_in_s3
      object_exists_in_s3-keeps key b i =
          by_answers (s3.wait b).0 (s3.stat_object key (s3.wait b).1).0 refl
        where
          b'' : S
          b'' = (s3.stat_object key (s3.wait b).1).1

          by_answers :
              (go : Bool) (answer : Stat)
              → (s3.stat_object key (s3.wait b).1).0 ≡ answer
              → I
                  (if◌then◌else◌ {A = Option Bool × S} go
                    (elim answer [
                      | found ↦ (some true, b'')
                      | no_such_key ↦ (some false, b'')
                      | stat_failed ↦ (none, b'')
                    ])
                    (none, (s3.wait b).1)).1
          by_answers true found e = o.stat key (s3.wait b).1 (o.wait b i)
          by_answers true no_such_key e = o.stat key (s3.wait b).1 (o.wait b i)
          by_answers true stat_failed e = o.stat key (s3.wait b).1 (o.wait b i)
          by_answers false answer e = o.wait b i

      -- A property of the bucket that requests which store nothing leave alone, and that outlasts
      -- (see `Outlasts`) a narinfo that a configured upstream vouches for, put under its key with
      -- more signatures, a NAR that is, decoded, what such a narinfo says, put under the key of
      -- its NAR, and an upload to that key that fails or is removed at once, is kept by a fill,
      -- whatever the upstreams answer and wherever the fill fails.
      pub fill_from_upstream-Outlasts :
          (key : String) (w : World S) (misses : Misses)
          → take (length (bytes key) - 8) (bytes key) ≡ hash
          → I w.bucket
          → I
              (fill_from_upstream s3 web stat signers now max_nar_size key upstreams w
                misses).1.0.bucket
      unfolding fill_from_upstream
      fill_from_upstream-Outlasts key w misses same i =
          by_answer (object_exists_in_s3 s3 key w.bucket).0
        where
          asked : World S
          asked = record w { bucket = (object_exists_in_s3 s3 key w.bucket).1 }

          i' : I asked.bucket
          i' = object_exists_in_s3-keeps key w.bucket i

          filled : Bool × (World S × Misses)
          filled =
              fill_once s3 web stat signers now max_nar_size
                (take (length (bytes key) - 8) (bytes key)) upstreams asked misses

          by_answer :
              (answer : Option Bool)
              → I
                  (elim answer as (λ _. Bool × (World S × Misses)) [
                    | none ↦ (false, (asked, misses))
                    | some exists ↦ if exists then (true, (asked, misses)) else filled
                  ]).1.0.bucket
          by_answer none = i'
          by_answer (some true) = i'
          by_answer (some false) = rw same (fill_once-keeps asked misses i')
