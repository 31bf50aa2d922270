-- ===== src/Server/Proxy/Answers.antt =====
-- What a read answers (server/proxy.go: the headers, decoding for clients, and the responses).
use niks.Common.{
  ℕ, ◌*◌, String, Option, none, some, List, [], ◌∷◌, ◌++◌, Bool, true, false, not, ◌&&◌, ◌||◌,
  if◌then◌else◌, ltb, leb, ◌==◌, nat_eq, list_eq, string_eq, length,
}
use niks.Common.Decimal.{format_uint}
use niks.Common.Table.{Table}
use niks.Server.Keys.{Key, bytes, has_suffix}
use niks.Server.Signing.{cut}
use niks.Server.Signing.Secret.{trim_space}
use niks.Server.Upstream.Narinfo.{split}
use niks.Server.Upstream.Fetch.{Decoded}
use niks.Server.Proxy.Range.{ByteRange, range_length}

-- What the handler reads of a request; its user, if the server knows one.
pub record Request : Type 0 where
  pub method : Key
  pub path : Key
  pub accept_encoding : List Key
  pub range : Key
  pub if_none_match : Key
  pub if_modified_since : Key
  pub principal : Option Key

-- What is used of `minio.ObjectInfo`.
pub record ObjectInfo : Type 0 where
  pub key : Key
  pub size : ℕ
  pub etag : Key
  pub content_type : Key
  pub content_encoding : Key
  pub meta_content_encoding : Key
  pub last_modified : Option ℕ

-- Why S3 does not answer.
pub data S3Error : Type 0 where
  rate_limited not_there failed : S3Error

pub data S3Answer {ℓ} (A : Type ℓ) : Type ℓ where
  got : A → S3Answer A
  not_got : S3Error → S3Answer A

-- The bucket read, presigning, times in headers, and letters in either case.
pub record Reads (S : Type 0) : Type 0 where
  pub stat : Key → S → S3Answer ObjectInfo × S
  pub get_object : Key → Option ByteRange → S → S3Answer Key × S
  pub presign_get : Key → S → Option Key × S
  pub parse_time : Key → Option ℕ
  pub format_time : ℕ → Key
  pub to_lower : Key → Key
  pub equal_fold : Key → Key → Bool

pub record Response : Type 0 where
  pub status : ℕ
  pub headers : Table String Key
  pub body : Key

-- The root path has a handler of its own.
pub data Served : Type 0 where
  root_page : Served
  respond : Response → Served

abbrev pub max_narinfo_size : ℕ
max_narinfo_size = 16 * 1024 * 1024

abbrev pub status_only : ℕ → Served
status_only status = respond (record { status = status; headers = []; body = [] })

abbrev pub first_of : Key → Key → Key
first_of [] b = b
first_of (c ∷ a) b = c ∷ a

-- `objectContentEncoding`.
abbrev pub object_content_encoding : ObjectInfo → Key
object_content_encoding info = first_of info.content_encoding info.meta_content_encoding

abbrev pub without_spaces : Key → Key
without_spaces [] = []
without_spaces (c ∷ s) = if c == 32 then without_spaces s else c ∷ without_spaces s

abbrev pub quality_not_zero : Key → Bool
quality_not_zero q =
    not (q == bytes "q=0")
    && not (q == bytes "q=0.0")
    && not (q == bytes "q=0.00")
    && not (q == bytes "q=0.000")

abbrev pub name_of : Key → Option (Key × Key) → Key
name_of coding none = coding
name_of coding (some parts) = parts.0

abbrev pub params_of : Option (Key × Key) → Key
params_of none = []
params_of (some parts) = parts.1

module _ {S : Type 0} (reads : Reads S) where
  -- The first coding named zstd decides.
  unfoldable pub accepts_among : List Key → Option Bool
  unfolding cut trim_space
  accepts_among [] = none
  accepts_among (coding ∷ codings) =
      let rest = accepts_among codings in
      if reads.equal_fold (trim_space (name_of coding (cut b';' coding))) (bytes "zstd")
      then some (quality_not_zero (without_spaces (reads.to_lower (params_of (cut b';' coding)))))
      else rest

  -- `acceptsZstd`.
  unfoldable pub accepts_zstd : List Key → Bool
  unfolding accepts_among split
  accepts_zstd [] = false
  accepts_zstd (value ∷ values) =
      let rest = accepts_zstd values in
      elim (accepts_among (split b',' value)) [ none ↦ rest | some accepts ↦ accepts ]

  -- `needsDecoding`.
  unfoldable pub needs_decoding : Request → ObjectInfo → Bool
  unfolding accepts_zstd
  needs_decoding r info =
      reads.equal_fold (object_content_encoding info) (bytes "zstd")
      && not (accepts_zstd r.accept_encoding)

  abbrev pub when : Bool → String → Key → Table String Key
  when b name value = if b then (name, value) ∷ [] else []

  abbrev pub time_header : Option ℕ → Table String Key
  time_header none = []
  time_header (some t) = ("Last-Modified", reads.format_time t) ∷ []

  -- `setProxyHeaders`: an object that is decoded for the client is not announced as encoded.
  unfoldable pub proxy_headers : Request → ObjectInfo → Table String Key
  unfolding needs_decoding has_suffix
  proxy_headers r info =
      (if has_suffix info.key (bytes ".narinfo")
        then ("Content-Type", bytes "text/x-nix-narinfo") ∷ []
        else when (not (info.content_type == [])) "Content-Type" info.content_type)
      ++ when (not (object_content_encoding info == [])) "Vary" (bytes "Accept-Encoding")
      ++ when (not (object_content_encoding info == []) && not (needs_decoding r info))
          "Content-Encoding" (object_content_encoding info)
      ++ when (not (info.etag == [])) "ETag" info.etag
      ++ time_header info.last_modified

  -- `handleProxyS3Error`.
  abbrev pub s3_error : S3Error → Served
  s3_error rate_limited =
      respond (record { status = 429; headers = ("Retry-After", bytes "2") ∷ []; body = [] })
  s3_error not_there = status_only 404
  s3_error failed = status_only 502

  abbrev pub accept_ranges : Table String Key
  accept_ranges = ("Accept-Ranges", bytes "bytes") ∷ []

  abbrev pub head_response : Request → ObjectInfo → Served
  head_response r info = respond (record {
    status = 200;
    headers =
        proxy_headers r info
        ++ (if needs_decoding r info
            then []
            else accept_ranges ++ ("Content-Length", format_uint info.size) ∷ []);
    body = [];
  })

  abbrev pub head_answer : Request → S3Answer ObjectInfo → Served
  head_answer r (got info) = head_response r info
  head_answer r (not_got e) = s3_error e

  -- `handleProxyHead`.
  unfoldable pub handle_proxy_head : Request → Key → S → Served × S
  unfolding proxy_headers format_uint
  handle_proxy_head r key b = let (answer, b') = reads.stat key b in (head_answer r answer, b')

  abbrev pub not_after : Option ℕ → ℕ → Bool
  not_after none t = true
  not_after (some m) t = leb m t

  abbrev pub since : Option ℕ → Option ℕ → Bool
  since none modified = false
  since (some t) modified = not_after modified t

  -- The conditional headers.
  unfoldable pub not_modified : Request → ObjectInfo → Bool
  not_modified r info =
      (not (r.if_none_match == []) && r.if_none_match == info.etag)
      || (not (r.if_modified_since == [])
          && since (reads.parse_time r.if_modified_since) info.last_modified)

  -- `serveDecoded`: a narinfo is decoded whole first.
  abbrev pub serve_decoded : Request → ObjectInfo → Decoded → Served
  serve_decoded r info d =
      if has_suffix info.key (bytes ".narinfo")
      then if d.failed || ltb max_narinfo_size (length d.out)
        then status_only 502
        else respond (record {
          status = 200;
          headers = proxy_headers r info ++ ("Content-Length", format_uint (length d.out)) ∷ [];
          body = d.out;
        })
      else respond (record { status = 200; headers = proxy_headers r info; body = d.out })

  abbrev pub content_range : ByteRange → ObjectInfo → Key
  content_range range info =
      bytes "bytes "
      ++ format_uint range.start
      ++ bytes "-"
      ++ format_uint range.end
      ++ bytes "/"
      ++ format_uint info.size

  abbrev pub serve_plain : Request → ObjectInfo → Option ByteRange → Key → Served
  serve_plain r info none body = respond (record {
    status = 200;
    headers =
        proxy_headers r info ++ accept_ranges ++ ("Content-Length", format_uint info.size) ∷ [];
    body = body;
  })
  serve_plain r info (some range) body = respond (record {
    status = 206;
    headers =
        proxy_headers r info
        ++ accept_ranges
        ++ ("Content-Range", content_range range info)
          ∷ ("Content-Length", format_uint (range_length range))
          ∷ [];
    body = body;
  })
