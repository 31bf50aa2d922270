-- ===== src/Server/Proxy/Tests.antt =====
-- Reads of one object from a bucket that reading does not change (server/proxy.go).
use niks.Common.{
  ℕ, ◌+◌, none, some, [], ◌∷◌, true, false, list_eq, nat_eq, string_eq, ◌==◌, ◌≡◌, refl,
}
use niks.Server.Db.{empty_db}
use niks.Server.Push as Push
use niks.Server.Keys.{Key, bytes, narinfo_re}
use niks.Server.Multipart.{Bucket, World, found, success, aborted}
use niks.Server.Upstream.Fetch.{Web}
use niks.Server.Proxy.Range.{whole, unsatisfiable, part, parse_single_range}
use niks.Server.Proxy.Range.Bounds.{Within, parse_single_range-Within}
use niks.Server.Proxy.Answers.{Request, got, Reads, Served, respond}
use niks.Server.Proxy.{Settings, read_proxy_handler, configure_upstreams}
use niks.Server.Proxy.Guarded.{ReadOnly, Untouched, read_proxy_handler-Untouched}

first_bytes : parse_single_range (bytes "bytes=0-2") 7 ≡ part (record { start = 0; end = 2 })
unfolding parse_single_range
first_bytes = refl

last_bytes : parse_single_range (bytes "bytes=-9") 7 ≡ part (record { start = 0; end = 6 })
unfolding parse_single_range
last_bytes = refl

past_the_end : parse_single_range (bytes "bytes=7-") 7 ≡ unsatisfiable
unfolding parse_single_range
past_the_end = refl

several : parse_single_range (bytes "bytes=0-1,3-4") 7 ≡ whole
unfolding parse_single_range
several = refl

parse_single_range-Within_example : Within 7 (parse_single_range (bytes "bytes=0-2") 7)
parse_single_range-Within_example = parse_single_range-Within (bytes "bytes=0-2") 7

abbrev bucket : Bucket ℕ
bucket = record {
  wait = λ b. (true, b);
  stat_object = λ key b. (found, b);
  new_upload = λ key b. (success "u", b);
  presign_put = λ key b. (success "url", b);
  complete_upload = λ key id parts b. (success tt, b);
  abort_upload = λ key id b. (aborted, b);
  presign = λ key id part b. (success "url", b);
}

abbrev web : Web Key ℕ
web = record {
  crypto = record { decode = λ s. some s; verify = λ k t s. false };
  get = λ url b. (none, b);
  parse_url = λ s. none;
  bzip2 = λ s. record { out = s; failed = false };
  zstd = λ s. record { out = s; failed = false };
  compress = λ s. s;
  sha256 = λ s. s;
  put_object = λ k c breaks b. (true, b + 1);
  remove_object = λ k b. b;
}

abbrev key : Key
key = bytes "0123456789abcdfghijklmnpqrsvwxyz.narinfo"

abbrev reads : Reads ℕ
reads = record {
  stat = λ k b. (
    got (record {
      key = k;
      size = 7;
      etag = bytes "e";
      content_type = [];
      content_encoding = [];
      meta_content_encoding = [];
      last_modified = none;
    }),
    b,
  );
  get_object = λ k range b. (got (bytes "narinfo"), b);
  presign_get = λ k b. (none, b);
  parse_time = λ s. none;
  format_time = λ t. [];
  to_lower = λ s. s;
  equal_fold = λ s t. s == t;
}

abbrev settings : Settings Key
settings = record {
  redirects = false;
  reads_gated_by_proxy = false;
  upstreams = record { url = bytes "u"; key = record { name = bytes "c"; key = [] } } ∷ [];
  signers = (λ infos. none) ∷ [];
  max_nar_size = 0;
}

abbrev request : Request
request = record {
  method = bytes "GET";
  path = bytes "/0123456789abcdfghijklmnpqrsvwxyz.narinfo";
  accept_encoding = [];
  range = [];
  if_none_match = [];
  if_modified_since = [];
  principal = none;
}

abbrev world : World ℕ
world = record { db = empty_db; uploads = []; bucket = 5 }

abbrev status_of : Served → ℕ
status_of Served.root_page = 0
status_of (respond r) = r.status

served :
    status_of
      (read_proxy_handler bucket web reads (λ _. Push.no_such_key) settings 0 request world []).0
    ≡ 200
unfolding read_proxy_handler narinfo_re
served = refl

configured : configure_upstreams settings false ≡ false
unfolding configure_upstreams
configured = refl

-- The bucket's state is a count of what was stored.
read_only : ReadOnly bucket web reads (λ b. b ≡ 5)
read_only = record {
  wait = λ b i. i;
  stat = λ k b i. i;
  get = λ k range b i. i;
  presign = λ k b i. i;
}

read_proxy_handler-Untouched_example :
    Untouched bucket web reads
      (λ b. b ≡ 5)
      read_only
      world
      []
      (read_proxy_handler bucket web reads (λ _. Push.no_such_key) settings 0 request world []).1
read_proxy_handler-Untouched_example =
    read_proxy_handler-Untouched bucket web reads (λ b. b ≡ 5) read_only (λ _. Push.no_such_key)
      settings 0 request world [] refl refl refl
