-- ===== src/Server/Proxy/Guarded.antt =====
-- Reads without a user change nothing (server/proxy.go, server/upstream.go).
use niks.Common.{
  ℕ, String, Option, none, some, [], Bool, true, false, not, ◌&&◌, ◌||◌, if◌then◌else◌, ◌==◌,
  nat_eq, list_eq, ◌≡◌, refl, sym, subst, arith, Bool-cases, inl, inr,
}
use niks.Server.Push as Push
use niks.Server.Keys.{Key, bytes, is_valid_cache_path, matches, nar_re, narinfo_re}
use niks.Server.Multipart.{Bucket, World}
use niks.Server.Upstream.Narinfo.{trim_prefix}
use niks.Server.Upstream.Fetch.{Web}
use niks.Server.Upstream.Misses.{Misses}
use niks.Server.Proxy.Range.{ByteRange, Ranged, whole, unsatisfiable, part, parse_single_range}
use niks.Server.Proxy.Answers.{
  Request, ObjectInfo, S3Answer, got, not_got, Reads, Served, not_modified, needs_decoding,
  handle_proxy_head,
}
use niks.Server.Proxy.{
  Settings, may_fill_from_upstream, serve_body, get_range, get_ranged, get_answer, handle_proxy_get,
  redirected, answer_read, filled_first, read_proxy_handler,
}

by_tests {ℓ κ} :
    {A : Type ℓ} (P : A → Type κ) (a b c d e : Bool) (u v w x y z : A)
    → P u
    → P v
    → P w
    → P x
    → P y
    → P z
    → P (if a then u else if b then v else if c then w else if d then x else if e then y else z)
by_tests P true b c d e u v w x y z hu hv hw hx hy hz = hu
by_tests P false true c d e u v w x y z hu hv hw hx hy hz = hv
by_tests P false false true d e u v w x y z hu hv hw hx hy hz = hw
by_tests P false false false true e u v w x y z hu hv hw hx hy hz = hx
by_tests P false false false false true u v w x y z hu hv hw hx hy hz = hy
by_tests P false false false false false u v w x y z hu hv hw hx hy hz = hz

may_fill_from_upstream-anonymous :
    {K : Type 0} (settings : Settings K) (r : Request)
    → settings.reads_gated_by_proxy ≡ false
    → r.principal ≡ none
    → may_fill_from_upstream settings r ≡ false
unfolding may_fill_from_upstream
may_fill_from_upstream-anonymous settings r h k = ground (arith, h, k)

module _ {K S : Type 0} (s3 : Bucket S) (web : Web K S) (reads : Reads S) (I : S → Type 0) where
  -- A property of the bucket that reading leaves alone.
  pub record ReadOnly : Type 0 where
    pub wait : (b : S) → I b → I (s3.wait b).1
    pub stat : (key : Key) (b : S) → I b → I (reads.stat key b).1
    pub get :
        (key : Key) (range : Option ByteRange) (b : S) → I b → I (reads.get_object key range b).1
    pub presign : (key : Key) (b : S) → I b → I (reads.presign_get key b).1

  module _ (o : ReadOnly) where
    serve_body-keeps :
        (r : Request) (info : ObjectInfo) (range : Option ByteRange) (decode : Bool)
        (answer : S3Answer Key × S)
        → I answer.1
        → I (serve_body s3 web reads r info range decode answer).1
    serve_body-keeps r info range decode (not_got e, b) i = i
    serve_body-keeps r info range decode (got body, b) i = i

    get_range-keeps :
        (r : Request) (key : Key) (info : ObjectInfo) (decode : Bool) (range : Option ByteRange)
        (b : S)
        → I b
        → I (get_range s3 web reads r key info decode range b).1
    get_range-keeps r key info decode range b i = elim (Bool-cases (s3.wait b).0) [
      | inl e ↦ rw e (serve_body-keeps r info range decode _ (o.get key range _ (o.wait b i)))
      | inr e ↦ rw e (o.wait b i)
    ]

    get_ranged-keeps :
        (r : Request) (key : Key) (info : ObjectInfo) (b : S) (range : Ranged)
        → I b
        → I (get_ranged s3 web reads r key info b range).1
    get_ranged-keeps r key info b whole i = get_range-keeps r key info false none b i
    get_ranged-keeps r key info b (part range) i = get_range-keeps r key info false (some range) b i
    get_ranged-keeps r key info b unsatisfiable i = i

    get_answer-keeps :
        (r : Request) (key : Key) (answer : S3Answer ObjectInfo × S)
        → I answer.1
        → I (get_answer s3 web reads r key answer).1
    get_answer-keeps r key (not_got e, b) i = i
    get_answer-keeps r key (got info, b) i = elim (Bool-cases (not_modified reads r info)) [
      | inl e ↦ rw e i
      | inr e ↦ rw e (elim (Bool-cases (needs_decoding reads r info)) [
        | inl d ↦ rw d (get_range-keeps r key info true none b i)
        | inr d ↦ rw d (get_ranged-keeps r key info b (parse_single_range r.range info.size) i)
      ])
    ]

    answer_read-keeps :
        (r : Request) (key : Key) (w : World S)
        → I w.bucket
        → I (answer_read s3 web reads r key w).1.bucket
    unfolding handle_proxy_get handle_proxy_head
    answer_read-keeps r key w i = elim (Bool-cases (r.method == bytes "HEAD")) [
      | inl e ↦ rw e (o.stat key w.bucket i)
      | inr e ↦ rw e (get_answer-keeps r key _ (o.stat key w.bucket i))
    ]

    redirected-keeps : (url : Option Key × S) → I url.1 → I (redirected s3 web reads url).1
    redirected-keeps (none, b) i = i
    redirected-keeps (some url, b) i = i

    filled_first-same :
        (stat : String → Push.Stat) (settings : Settings K) (now : ℕ) (r : Request) (key : Key)
        (w : World S) (misses : Misses)
        → may_fill_from_upstream settings r ≡ false
        → filled_first s3 web reads stat settings now r key w misses ≡ (w, misses)
    filled_first-same stat settings now r key w misses h =
        rw h (by_match _ (matches narinfo_re key))
      where
        by_match :
            (x : World S × Misses) (b : Bool)
            → if◌then◌else◌ {A = World S × Misses} (b && false) x (w, misses) ≡ (w, misses)
        by_match x true = refl
        by_match x false = refl

    -- The tables and the known misses are as before, and the bucket keeps the property.
    pub record Untouched (w : World S) (misses : Misses) (after : World S × Misses) : Type 0 where
      pub db : after.0.db ≡ w.db
      pub uploads : after.0.uploads ≡ w.uploads
      pub known : after.1 ≡ misses
      pub bucket : I after.0.bucket

    untouched :
        (w : World S) (misses : Misses) (b : S)
        → I b
        → Untouched w misses (record w { bucket = b }, misses)
    untouched w misses b i = record { db = refl; uploads = refl; known = refl; bucket = i }

    -- A read by nobody that the server knows stores nothing and asks no upstream, whatever its path
    -- and headers are and however S3 answers, unless the operator vouches for a proxy in front: the
    -- tables and known misses stay, and so does any property of the bucket that reading it keeps.
    pub read_proxy_handler-Untouched :
        (stat : String → Push.Stat) (settings : Settings K) (now : ℕ) (r : Request) (w : World S)
        (misses : Misses)
        → settings.reads_gated_by_proxy ≡ false
        → r.principal ≡ none
        → I w.bucket
        → Untouched w misses (read_proxy_handler s3 web reads stat settings now r w misses).1
    unfolding read_proxy_handler
    read_proxy_handler-Untouched stat settings now r w misses h k i =
        let key = trim_prefix r.path (bytes "/") in
        by_tests (λ (x : Served × (World S × Misses)). Untouched w misses x.1)
          (not (r.method == bytes "GET" || r.method == bytes "HEAD")) (key == [])
          (not (is_valid_cache_path key)) (settings.redirects && matches nar_re key)
          (not (s3.wait w.bucket).0) _ _ _ _ _ _ (untouched w misses w.bucket i)
          (untouched w misses w.bucket i) (untouched w misses w.bucket i)
          (untouched w misses _ (redirected-keeps _ (o.presign key w.bucket i)))
          (untouched w misses _ (o.wait w.bucket i)) (answered key)
      where
        asked : World S
        asked = record w { bucket = (s3.wait w.bucket).1 }

        answered :
            (key : Key)
            → let first : World S × Misses =
                filled_first s3 web reads stat settings now r key asked misses in
              Untouched w misses ((answer_read s3 web reads r key first.0).1, first.1)
        answered key =
            subst
              (λ (first : World S × Misses).
                Untouched w misses ((answer_read s3 web reads r key first.0).1, first.1))
              (sym (
                filled_first-same stat settings now r key asked misses
                  (may_fill_from_upstream-anonymous settings r h k)))
              (untouched w misses _ (answer_read-keeps r key asked (o.wait w.bucket i)))
