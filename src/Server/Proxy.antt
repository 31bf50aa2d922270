-- ===== src/Server/Proxy.antt =====
-- Reading through the server (server/proxy.go, and of server/upstream.go who may cause a fill). The
-- text of an error's page and the deadlines of connections are left out; a header's time is read
-- and printed by the service.
pub mod Range
pub mod Answers
pub mod Guarded
mod Tests
use niks.Common.{
  ℕ, String, Option, none, some, List, [], ◌∷◌, ◌++◌, Bool, true, false, not, ◌&&◌, ◌||◌,
  if◌then◌else◌, ◌==◌, nat_eq, list_eq, length, is_none,
}
use niks.Common.Decimal.{format_uint}
use niks.Server.Push as Push
use niks.Server.Keys.{Key, bytes, is_valid_cache_path, matches, nar_re, narinfo_re}
use niks.Server.Sign.{Signer}
use niks.Server.Multipart.{Bucket, World}
use niks.Server.Upstream.Narinfo.{trim_prefix}
use niks.Server.Upstream.Fetch.{Upstream, Web}
use niks.Server.Upstream.Fill.{text, fill_from_upstream}
use niks.Server.Upstream.Misses.{Misses}
use niks.Server.Proxy.Range.{ByteRange, Ranged, whole, unsatisfiable, part, parse_single_range}
use niks.Server.Proxy.Answers.{
  Request, ObjectInfo, S3Answer, got, not_got, Reads, Served, respond, root_page, status_only,
  s3_error, needs_decoding, not_modified, handle_proxy_head, serve_decoded, serve_plain,
}

-- The server's settings.
pub record Settings (K : Type 0) : Type 0 where
  pub redirects : Bool
  pub reads_gated_by_proxy : Bool
  pub upstreams : List (Upstream K)
  pub signers : List Signer
  pub max_nar_size : ℕ

-- `configureUpstreams`: fills have to be signed, and reads authenticated.
unfoldable pub configure_upstreams : {K : Type 0} → Settings K → Bool → Bool
configure_upstreams settings read_gated =
    if length settings.upstreams == 0
    then true
    else if length settings.signers == 0
    then false
    else read_gated || settings.reads_gated_by_proxy

-- `mayFillFromUpstream`.
unfoldable pub may_fill_from_upstream : {K : Type 0} → Settings K → Request → Bool
may_fill_from_upstream settings r =
    if length settings.upstreams == 0
    then false
    else if settings.reads_gated_by_proxy
    then true
    else not (is_none r.principal)

module _ {K S : Type 0} (s3 : Bucket S) (web : Web K S) (reads : Reads S) where
  abbrev pub serve_body :
      Request → ObjectInfo → Option ByteRange → Bool → S3Answer Key × S → Served × S
  serve_body r info range decode (not_got e, b) = (s3_error reads e, b)
  serve_body r info range decode (got body, b) = (
    if decode
        then serve_decoded reads r info (web.zstd body)
        else serve_plain reads r info range body,
    b,
  )

  -- The object or a part of it, once the limiter lets the request through.
  abbrev pub get_range : Request → Key → ObjectInfo → Bool → Option ByteRange → S → Served × S
  get_range r key info decode range b =
      let (go, b') = s3.wait b in
      let served = serve_body r info range decode (reads.get_object key range b') in
      if go then served else (status_only 503, b')

  abbrev pub get_ranged : Request → Key → ObjectInfo → S → Ranged → Served × S
  get_ranged r key info b whole = get_range r key info false none b
  get_ranged r key info b (part range) = get_range r key info false (some range) b
  get_ranged r key info b unsatisfiable = (
    respond (record {
      status = 416;
      headers = ("Content-Range", bytes "bytes */" ++ format_uint info.size) ∷ [];
      body = [];
    }),
    b,
  )

  abbrev pub get_answer : Request → Key → S3Answer ObjectInfo × S → Served × S
  get_answer r key (not_got e, b) = (s3_error reads e, b)
  get_answer r key (got info, b) =
      if not_modified reads r info
      then (status_only 304, b)
      else if needs_decoding reads r info
      then get_range r key info true none b
      else get_ranged r key info b (parse_single_range r.range info.size)

  -- `handleProxyGet`.
  unfoldable pub handle_proxy_get : Request → Key → S → Served × S
  unfolding not_modified needs_decoding parse_single_range format_uint
  handle_proxy_get r key b = get_answer r key (reads.stat key b)

  abbrev pub redirected : Option Key × S → Served × S
  redirected (none, b) = (status_only 502, b)
  redirected (some url, b) = (
    respond (record {
      status = 307;
      headers = ("Cache-Control", bytes "no-store") ∷ ("Location", url) ∷ [];
      body = [];
    }),
    b,
  )

  abbrev pub answer_read : Request → Key → World S → Served × World S
  answer_read r key w =
      let (served, b) =
        if r.method == bytes "HEAD"
        then handle_proxy_head reads r key w.bucket
        else handle_proxy_get r key w.bucket in
      (served, record w { bucket = b })

  module _ (stat : String → Push.Stat) (settings : Settings K) (now : ℕ) where
    -- A fill that fails is logged, and the read goes on.
    abbrev pub filled_first : Request → Key → World S → Misses → World S × Misses
    filled_first r key w misses =
        let fill =
          (fill_from_upstream s3 web stat settings.signers now settings.max_nar_size (text key)
            settings.upstreams w misses).1 in
        if matches narinfo_re key && may_fill_from_upstream settings r then fill else (w, misses)

    -- `ReadProxyHandler`.
    unfoldable pub read_proxy_handler : Request → World S → Misses → Served × (World S × Misses)
    unfolding is_valid_cache_path matches may_fill_from_upstream fill_from_upstream handle_proxy_get
        handle_proxy_head text
    read_proxy_handler r w misses =
        let key = trim_prefix r.path (bytes "/") in
        let (go, b) = s3.wait w.bucket in
        let (url, b_url) = redirected (reads.presign_get key w.bucket) in
        let (w', misses') = filled_first r key (record w { bucket = b }) misses in
        let (served, w'') = answer_read r key w' in
        if not (r.method == bytes "GET" || r.method == bytes "HEAD")
        then (status_only 405, (w, misses))
        else if key == []
        then (root_page, (w, misses))
        else if not (is_valid_cache_path key)
        then (status_only 404, (w, misses))
        else if settings.redirects && matches nar_re key
        then (url, (record w { bucket = b_url }, misses))
        else if not go
        then (status_only 503, (record w { bucket = b }, misses))
        else (served, (w'', misses'))
