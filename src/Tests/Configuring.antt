-- ===== src/Tests/Configuring.antt =====
-- Bucket URLs of both styles (internal/spconfig).
use limewire_purge.Prelude.{◌≡◌, refl, [], Bytes, codes, split, bytes_eq}
use limewire_purge.Errors.{Result, ok, err}
use limewire_purge.Spconfig.{Url, S3Target, identity, parse_region, behind_prefix, parse_bucket_url}

abbrev path_url : Bytes → Result Url
path_url raw = ok (record {
  scheme = codes "https";
  host = codes "s3.eu-west-1.amazonaws.com";
  path = codes "/limewire/pieces";
})

abbrev host_url : Bytes → Result Url
host_url raw = ok (record {
  scheme = codes "HTTPS";
  host = codes "limewire.s3.eu-west-1.amazonaws.com";
  path = [];
})

abbrev identity_of : Result S3Target → Bytes
identity_of (ok t) = identity t
identity_of (err e) = []

by_path : identity_of (parse_bucket_url path_url (codes "u/")) ≡ codes "aws:eu-west-1/limewire"
unfolding parse_bucket_url parse_region behind_prefix identity split bytes_eq
by_path = refl

by_host : identity_of (parse_bucket_url host_url (codes "u")) ≡ codes "aws:eu-west-1/limewire"
unfolding parse_bucket_url parse_region behind_prefix identity split bytes_eq
by_host = refl
