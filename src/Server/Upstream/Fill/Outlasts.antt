-- ===== src/Server/Upstream/Fill/Outlasts.antt =====
-- What the bucket keeps while a NAR is copied (server/upstream.go: copyUpstreamNar, putObject).
use mathlib.Core.List.{append-nil, append_assoc}
use niks.Common.{
  ℕ, String, Option, none, some, List, [], ◌∷◌, ◌++◌, Bool, true, false, if◌then◌else◌, ◌==◌,
  nat_eq, list_eq, string_eq, ◌≡◌, refl, sym, ◌∙◌, Bool-cases, inl, inr,
}
use niks.Common.Table.{Table, lookup}
use niks.Server.Db.{PendingObject}
use niks.Server.Keys.{Key, bytes}
use niks.Server.Sign.{NarInfo, Signer}
use niks.Server.Multipart.{Bucket}
use niks.Server.Upstream.Narinfo.{UpstreamNarinfo, format}
use niks.Server.Upstream.Fetch.{Upstream, Reply, Web, verify_nar}
use niks.Server.Upstream.Fetch.Checked.{Trusted, Verified, verify_nar-Verified}
use niks.Server.Upstream.Fill.{
  text, narinfo_key_of, put_object, after_put, copy_reply, copy_upstream_nar, copy_pending,
  sign_all,
}

-- One of the upstreams.
pub data Among {K : Type 0} (u : Upstream K) : List (Upstream K) → Type 0 where
  first : {us : List (Upstream K)} → Among u (u ∷ us)
  later : {v : Upstream K} {us : List (Upstream K)} → Among u us → Among u (v ∷ us)

-- Signatures are added behind those there are.
pub sign_all-append :
    (key : String) (info : NarInfo) (signers : List Signer) (sigs all : List Key)
    → sign_all key info signers sigs ≡ some all
    → (more : List Key) × (all ≡ sigs ++ more)
unfolding sign_all
sign_all-append key info [] sigs all h = ([], sym (append-nil sigs ∙ cc))
sign_all-append key info (signer ∷ signers) sigs all h =
    by_answer (λ sig. sign_all-append key info signers (sigs ++ sig ∷ []) all)
      (signer ((key, info) ∷ [])) h
  where
    Appends : Type 0
    Appends =
        (sig : Key)
        → sign_all key info signers (sigs ++ sig ∷ []) ≡ some all
        → (more : List Key) × (all ≡ (sigs ++ sig ∷ []) ++ more)

    by_signature :
        Appends
        → (found : Option Key)
        → (elim found [ none ↦ none | some sig ↦ sign_all key info signers (sigs ++ sig ∷ []) ])
          ≡ some all
        → (more : List Key) × (all ≡ sigs ++ more)
    by_signature next none h = cc
    by_signature next (some sig) h =
        let (more, same) = next sig h in (sig ∷ more, same ∙ append_assoc sigs (sig ∷ []) more)

    by_answer :
        Appends
        → (answer : Option (Table String Key))
        → (elim answer [
          | none ↦ none
          | some signed ↦ elim (lookup key signed) [
            | none ↦ none
            | some sig ↦ sign_all key info signers (sigs ++ sig ∷ [])
          ]
        ])
          ≡ some all
        → (more : List Key) × (all ≡ sigs ++ more)
    by_answer next none h = cc
    by_answer next (some signed) h = by_signature next (lookup key signed) h

module _ {K S : Type 0} (s3 : Bucket S) (web : Web K S) (upstreams : List (Upstream K)) (hash : Key)
    (max_nar_size : ℕ) (I : S → Type 0) where
  -- A property of the bucket that requests which store nothing leave alone, and that outlasts four
  -- writes, each for a narinfo that a configured upstream vouches for: a NAR that is, decoded, what
  -- the narinfo says, under the key of its NAR; an upload to that key that fails; one that succeeds
  -- and is removed at once; and the narinfo itself, under its own key, with more signatures.
  pub record Outlasts : Type 0 where
    pub wait : (b : S) → I b → I (s3.wait b).1
    pub stat : (key : String) (b : S) → I b → I (s3.stat_object key b).1
    pub get : (url : Key) (b : S) → I b → I (web.get url b).1
    pub nar :
        (u : Upstream K) (info : UpstreamNarinfo) (content : Key) (breaks : Bool) (b : S)
        → Among u upstreams
        → Trusted web u hash max_nar_size info
        → Verified web info content
        → I b
        → I (web.put_object info.nar_key content breaks b).1
    pub failed :
        (u : Upstream K) (info : UpstreamNarinfo) (content : Key) (breaks : Bool) (b : S)
        → Among u upstreams
        → Trusted web u hash max_nar_size info
        → (web.put_object info.nar_key content breaks b).0 ≡ false
        → I b
        → I (web.put_object info.nar_key content breaks b).1
    pub taken_back :
        (u : Upstream K) (info : UpstreamNarinfo) (content : Key) (breaks : Bool) (b : S)
        → Among u upstreams
        → Trusted web u hash max_nar_size info
        → (web.put_object info.nar_key content breaks b).0 ≡ true
        → I b
        → I (web.remove_object info.nar_key (web.put_object info.nar_key content breaks b).1)
    pub narinfo :
        (u : Upstream K) (info : UpstreamNarinfo) (sigs : List Key) (b : S)
        → Among u upstreams
        → Trusted web u hash max_nar_size info
        → I b
        → I
            (web.put_object
              (bytes (narinfo_key_of info.nar_info.store_path))
              (web.compress (format info (info.sigs ++ sigs)))
              false
              b).1

  module _ (o : Outlasts) where
    pub put_object-keeps :
        (key content : Key) (breaks : Bool) (b : S)
        → ((b : S) → I b → I (web.put_object key content breaks b).1)
        → I b
        → I (put_object s3 web key content breaks b).1
    unfolding put_object
    put_object-keeps key content breaks b put i = by_wait (s3.wait b).0
      where
        by_wait :
            (go : Bool)
            → I
                (if go
                  then web.put_object key content breaks (s3.wait b).1
                  else (false, (s3.wait b).1)).1
        by_wait true = put (s3.wait b).1 (o.wait b i)
        by_wait false = o.wait b i

    module _ (u : Upstream K) (info : UpstreamNarinfo) (among : Among u upstreams)
        (trusted : Trusted web u hash max_nar_size info) where
      copy_put-keeps :
          (content : Key) (breaks : Bool) (b : S)
          → I b
          → I
              (after_put s3 web info
                (verify_nar web info content)
                (put_object s3 web info.nar_key content breaks b)).1
      unfolding put_object
      copy_put-keeps content breaks b i =
          by_answers (s3.wait b).0 (verify_nar web info content) refl
            (web.put_object info.nar_key content breaks (s3.wait b).1).0 refl
        where
          put : S
          put = (web.put_object info.nar_key content breaks (s3.wait b).1).1

          by_answers :
              (go verified : Bool)
              → verify_nar web info content ≡ verified
              → (done : Bool) → (web.put_object info.nar_key content breaks (s3.wait b).1).0 ≡ done
              → I
                  (after_put s3 web info verified
                    (if go then (done, put) else (false, (s3.wait b).1))).1
          by_answers true true e done d =
              o.nar u info content breaks (s3.wait b).1 among trusted
                (verify_nar-Verified web info content e) (o.wait b i)
          by_answers true false e true d =
              o.taken_back u info content breaks (s3.wait b).1 among trusted d (o.wait b i)
          by_answers true false e false d =
              o.failed u info content breaks (s3.wait b).1 among trusted d (o.wait b i)
          by_answers false true e done d = o.wait b i
          by_answers false false e done d = o.wait b i

      copy_reply-keeps :
          (answer : Option Reply) (b : S) → I b → I (copy_reply s3 web info answer b).1
      copy_reply-keeps none b i = i
      copy_reply-keeps (some reply) b i = elim (Bool-cases (reply.status == 200)) [
        | inl e ↦ rw e (copy_put-keeps _ _ b i)
        | inr e ↦ rw e i
      ]

      copy_upstream_nar-keeps : (b : S) → I b → I (copy_upstream_nar s3 web u info b).1
      unfolding copy_upstream_nar
      copy_upstream_nar-keeps b i =
          copy_reply-keeps (web.get (u.url ++ bytes "/" ++ info.url) b).0 _ (o.get _ b i)

      pub copy_pending-keeps :
          (rows : List PendingObject) (b : S) → I b → I (copy_pending s3 web u info rows b).1
      unfolding copy_pending
      copy_pending-keeps [] b i = i
      copy_pending-keeps (r ∷ rs) b i =
          by_row (r.key == text info.nar_key) (copy_upstream_nar s3 web u info b).0
            (λ b. copy_pending-keeps rs b)
        where
          b' : S
          b' = (copy_upstream_nar s3 web u info b).1

          by_row :
              (here copied : Bool)
              → ((b : S) → I b → I (copy_pending s3 web u info rs b).1)
              → I
                  (if here
                    then if copied then copy_pending s3 web u info rs b' else (false, b')
                    else copy_pending s3 web u info rs b).1
          by_row true true next = next b' (copy_upstream_nar-keeps b i)
          by_row true false next = copy_upstream_nar-keeps b i
          by_row false copied next = next b i
