-- ===== src/Spconfig.antt =====
-- internal/spconfig/spconfig.go: the SP's configuration. The TOML file and the parsing of a URL are the
-- libraries'; texts are their bytes.
pub mod Checked
use limewire_purge.Prelude.{
  ℕ, ◌+◌, ◌-◌, Bool, true, false, not, ◌&&◌, ◌||◌, List, [], ◌∷◌, ◌++◌, Option, none, some, Bytes,
  ℤ, pos, negsuc, codes, bytes_eq, split, leb, ltb, ◌==◌, if◌then◌else◌,
}
use limewire_purge.Errors.{Err, wrapped, message, Result, ok, err}

pub record SqlDb : Type 0 where
  pub user : Bytes
  pub passwd : Bytes
  pub address : Bytes
  pub database : Bytes

-- Of PieceStore, Chain and SpAccount the fields that are read.
pub record Config : Type 0 where
  pub spdb : SqlDb
  pub bsdb : SqlDb
  pub shards : ℤ
  pub storage : Bytes
  pub bucket_url : Bytes
  pub iam_type : Bytes
  pub chain_id : Bytes
  pub sp_operator : Bytes

-- os.LookupEnv
abbrev Lookup : Type 0
Lookup = Bytes → Option Bytes

abbrev or_set : Option Bytes → Bytes → Bytes
or_set none old = old
or_set (some v) old = v

-- `applyEnv`
unfoldable pub apply_env : Lookup → SqlDb → (user pass addr db : Bytes) → SqlDb
apply_env lookup d user pass addr db = record {
  user = or_set (lookup user) d.user;
  passwd = or_set (lookup pass) d.passwd;
  address = or_set (lookup addr) d.address;
  database = or_set (lookup db) d.database;
}

-- What `Load` makes of the file's fields.
override : Lookup → Config → Config
unfolding apply_env
override lookup c = record c {
  spdb =
      apply_env lookup c.spdb (codes "SP_DB_USER") (codes "SP_DB_PASSWORD") (codes "SP_DB_ADDRESS")
        (codes "SP_DB_DATABASE");
  bsdb =
      apply_env lookup c.bsdb (codes "BS_DB_USER") (codes "BS_DB_PASSWORD") (codes "BS_DB_ADDRESS")
        (codes "BS_DB_DATABASE");
  bucket_url = or_set (lookup (codes "BUCKET_URL")) c.bucket_url;
  chain_id = if bytes_eq c.chain_id [] then codes "greenfield_9000-121" else c.chain_id;
}

-- c.PieceStore.Shards > 1
pub is_sharded : ℤ → Bool
is_sharded (pos n) = ltb 1 n
is_sharded (negsuc n) = false

check_store : Config → Result Config
unfolding is_sharded bytes_eq
check_store c =
    if is_sharded c.shards
    then err (message "sharded piece stores are not supported by this tool")
    else if bytes_eq c.storage []
        || (bytes_eq c.storage (codes "s3") || bytes_eq c.storage (codes "minio"))
    then ok c
    else err (message "only s3 / minio are supported")

-- `Load`, for what toml.DecodeFile gives.
unfoldable pub load : Lookup → Result Config → Result Config
unfolding override check_store
load lookup (err e) = err (wrapped "parse" e)
load lookup (ok c) = check_store (override lookup c)

-- `DSN`
unfoldable pub dsn : SqlDb → Bytes
dsn d =
    d.user
    ++ codes ":"
    ++ d.passwd
    ++ codes "@tcp("
    ++ d.address
    ++ codes ")/"
    ++ d.database
    ++ codes "?parseTime=true&charset=utf8mb4&interpolateParams=true"

pub record S3Target : Type 0 where
  pub bucket : Bytes
  pub region : Bytes
  pub endpoint : Bytes
  pub path_style : Bool
  pub use_ssl : Bool

-- `Identity`
unfoldable pub identity : S3Target → Bytes
unfolding bytes_eq
identity t =
    (if bytes_eq t.endpoint [] then codes "aws:" ++ t.region else t.endpoint)
    ++ codes "/"
    ++ t.bucket

-- strings.HasPrefix and strings.TrimPrefix in one: what follows the prefix.
unfoldable pub behind_prefix : Bytes → Bytes → Option Bytes
behind_prefix [] s = some s
behind_prefix (p ∷ prefix) [] = none
behind_prefix (p ∷ prefix) (c ∷ s) = elim (p == c) [ true ↦ behind_prefix prefix s | false ↦ none ]

abbrev or_whole : Option Bytes → Bytes → Bytes
or_whole none s = s
or_whole (some rest) s = rest

abbrev is_found {ℓ} : {A : Type ℓ} → Option A → Bool
is_found none = false
is_found (some a) = true

abbrev first_found : Option Bytes → Option Bytes → Bytes → Bytes
first_found none o s = or_whole o s
first_found (some rest) o s = rest

-- strings.Split(s, ".")[0]
before_dot : Bytes → Bytes
before_dot [] = []
before_dot (c ∷ s) = if c == b'.' then [] else c ∷ before_dot s

region_of : Bytes → Bytes
unfolding bytes_eq before_dot
region_of endpoint =
    if bytes_eq endpoint (codes "amazonaws.com")
    then codes "us-east-1"
    else if bytes_eq (before_dot endpoint) (codes "external-1")
    then codes "us-east-1"
    else before_dot endpoint

-- `parseRegion`
unfoldable pub parse_region : Bytes → Bytes
unfolding region_of behind_prefix
parse_region endpoint =
    let rest =
      first_found (behind_prefix (codes "s3-") endpoint) (behind_prefix (codes "s3.") endpoint)
        endpoint in
    region_of (or_whole (behind_prefix (codes "dualstack.") rest) rest)

-- strings.Contains
contains : Bytes → Bytes → Bool
unfolding behind_prefix
contains part [] = is_found (behind_prefix part [])
contains part (c ∷ s) = is_found (behind_prefix part (c ∷ s)) || contains part s

-- strings.SplitN(s, sep, 2), where the separator is there
cut_at : Bytes → Bytes → Option (Bytes × Bytes)
unfolding behind_prefix
cut_at sep [] = none
cut_at sep (c ∷ s) =
    let rest = cut_at sep s in
    elim (behind_prefix sep (c ∷ s)) [
      | some behind ↦ some ([], behind)
      | none ↦ elim rest [ none ↦ none | some (before, behind) ↦ some (c ∷ before, behind) ]
    ]

-- strings.Trim(raw, "/")
trim_left : Bytes → Bytes
trim_left [] = []
trim_left (c ∷ s) = if c == b'/' then trim_left s else c ∷ s

trim_right : Bytes → Bytes
trim_right [] = []
trim_right (c ∷ s) =
    let rest = trim_right s in
    elim rest [ [] ↦ if c == b'/' then [] else c ∷ [] | d ∷ t ↦ c ∷ d ∷ t ]

-- *url.URL, as far as it is read.
pub record Url : Type 0 where
  pub scheme : Bytes
  pub host : Bytes
  pub path : Bytes

-- strings.EqualFold with the text https
lower : ℕ → ℕ
lower c = if leb b'A' c && leb c b'Z' then c + 32 else c

lower_all : Bytes → Bytes
unfolding lower
lower_all [] = []
lower_all (c ∷ s) = lower c ∷ lower_all s

is_https : Bytes → Bool
unfolding lower_all bytes_eq
is_https scheme = bytes_eq (lower_all scheme) (codes "https")

-- The segment behind the first slash of a path; the others are ignored.
first_segment : List Bytes → Option Bytes
unfolding bytes_eq
first_segment [] = none
first_segment (a ∷ []) = none
first_segment (a ∷ b ∷ rest) = if bytes_eq b [] then none else some b

or_default : Bytes → Bytes
or_default [] = codes "us-east-1"
or_default (c ∷ s) = c ∷ s

path_target : Url → Bool → Option Bytes → Result S3Target
unfolding parse_region is_https or_default
path_target u is_aws none = err (message "bucket name missing in BucketURL path")
path_target u true (some bucket) = ok (record {
  bucket = bucket;
  region = or_default (parse_region u.host);
  endpoint = [];
  path_style = true;
  use_ssl = is_https u.scheme;
})
path_target u false (some bucket) = ok (record {
  bucket = bucket;
  region = codes "us-east-1";
  endpoint = u.scheme ++ codes "://" ++ u.host;
  path_style = true;
  use_ssl = is_https u.scheme;
})

host_target : Url → Bool → Option (Bytes × Bytes) → Result S3Target
unfolding parse_region is_https or_default
host_target u false parts = err (message "cannot derive bucket")
host_target u true none = err (message "unexpected virtual-hosted URL")
host_target u true (some (bucket, rest)) = ok (record {
  bucket = bucket;
  region = or_default (parse_region (codes "s3" ++ rest));
  endpoint = [];
  path_style = false;
  use_ssl = is_https u.scheme;
})

target_of : Url → Result S3Target
unfolding contains cut_at first_segment path_target host_target split bytes_eq
target_of u =
    if bytes_eq u.path []
    then host_target u (contains (codes ".amazonaws.com") u.host) (cut_at (codes ".s3") u.host)
    else path_target u (contains (codes ".amazonaws.com") u.host)
        (first_segment (split b'/' u.path))

after_parse : Result Url → Result S3Target
unfolding target_of
after_parse (err e) = err e
after_parse (ok u) = target_of u

-- `ParseBucketURL` over url.ParseRequestURI
unfoldable pub parse_bucket_url : (Bytes → Result Url) → Bytes → Result S3Target
unfolding after_parse trim_left trim_right
parse_bucket_url parse_request_uri raw =
    after_parse (parse_request_uri (trim_right (trim_left raw)))
