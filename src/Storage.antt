-- ===== src/Storage.antt =====
-- core-api/storage/s3.go. The AWS SDK is not part of the repository: its clients are records of
-- operations on an outside world `W`.
use audio_streaming_service.Common.{
  ℕ, zero, suc, Bool, true, List, [], ◌∷◌, map, Option, none, some, Bytes, codes, Result, ok, err,
  Exec, nil_config, ℤ, pos, negsuc,
}
use audio_streaming_service.Config.{Config, UrlPackage, build_public_object_url}
use audio_streaming_service.Std.Path.{clean}
use audio_streaming_service.Std.Strings.{trim_prefix}

-- `s3.PutObjectInput`, with the bytes that the body's reader gives
pub record PutObjectInput : Type 0 where
  pub bucket : Bytes
  pub key : Bytes
  pub body : Bytes
  pub content_length : ℕ
  pub content_type : Bytes

-- `types.Object` of the SDK, whose fields are pointers
pub record SdkObject : Type 0 where
  pub key : Option Bytes
  pub size : Option ℕ
  pub last_modified : Option ℕ

-- `s3.Client` and `s3.PresignClient`. The answer of `get_object` holds the result of reading its
-- body to the end.
pub record S3Client (W : Type 0) : Type 0 where
  pub put_object : PutObjectInput → Exec W (Unit {0})
  pub head_object : Bytes → Bytes → Exec W (Unit {0})
  pub get_object : Bytes → Bytes → Exec W (Result Bytes)
  pub list_objects : Bytes → Bytes → ℤ → Exec W (List SdkObject)
  pub delete_object : Bytes → Bytes → Exec W (Unit {0})
  pub presign_get_object : Bytes → Bytes → ℕ → Exec W Bytes
  pub presign_put_object : Bytes → Bytes → Bytes → ℕ → Exec W Bytes

-- The options of `LoadDefaultConfig`, and those of `NewFromConfig`
pub record LoadOptions : Type 0 where
  pub region : Bytes
  pub access_key : Bytes
  pub secret_key : Bytes
  pub request_checksum_when_required : Bool
  pub response_checksum_when_required : Bool

pub record ClientOptions : Type 0 where
  pub use_path_style : Bool
  pub base_endpoint : Bytes

-- Packages config and s3 of the SDK: a configuration `A`, and the clients made from it
pub record AwsPackage (W A : Type 0) : Type 0 where
  pub load_default_config : LoadOptions → Exec W A
  pub new_from_config : A → ClientOptions → S3Client W

abbrev pub load_options : Config → LoadOptions
load_options cfg = record {
  region = cfg.s3_region;
  access_key = cfg.s3_access_key;
  secret_key = cfg.s3_secret_key;
  request_checksum_when_required = true;
  response_checksum_when_required = true;
}

abbrev pub client_options : Config → ClientOptions
client_options cfg = record { use_path_style = true; base_endpoint = cfg.s3_endpoint }

pub record S3Storage (W : Type 0) : Type 0 where
  pub bucket : Bytes
  pub client : S3Client W
  pub cfg : Option Config

pub record ObjectInfo : Type 0 where
  pub key : Bytes
  pub size : ℕ
  pub last_modified : Option ℕ

-- `strings.TrimPrefix(key, "/")`, the key that every call sends
abbrev pub sent_key : Bytes → Bytes
sent_key key = trim_prefix key (codes "/")

-- `aws.ToString` and `aws.ToInt64`
abbrev pub to_string : Option Bytes → Bytes
to_string none = []
to_string (some s) = s

abbrev pub to_int64 : Option ℕ → ℕ
to_int64 none = 0
to_int64 (some n) = n

abbrev pub or_hundred : ℤ → ℤ
or_hundred (negsuc n) = pos 100
or_hundred (pos zero) = pos 100
or_hundred (pos (suc n)) = pos (suc n)

abbrev pub object_info : SdkObject → ObjectInfo
object_info o = record {
  key = to_string o.key;
  size = to_int64 o.size;
  last_modified = o.last_modified;
}

-- A nil receiver is `none`. (Its bucket is the empty string.)
pub bucket_name : {W : Type 0} → Option (S3Storage W) → Bytes
bucket_name none = []
bucket_name (some s) = s.bucket

abbrev with_config : UrlPackage → Bytes → Option Config → Result Bytes
with_config urls key none = err nil_config
with_config urls key (some c) =
    build_public_object_url urls c (trim_prefix (clean (b'/' ∷ key)) (codes "/"))

module _ {W : Type 0} where
  -- `NewS3Storage`
  abbrev pub with_client :
      {A : Type 0} → AwsPackage W A → Config → Result A × W → Result (S3Storage W) × W
  with_client aws cfg (ok aws_config, w) = (
    ok (record {
      bucket = cfg.s3_bucket;
      client = aws.new_from_config aws_config (client_options cfg);
      cfg = some cfg;
    }),
    w,
  )
  with_client aws cfg (err e, w) = (err e, w)

  unfoldable pub new_s3_storage : {A : Type 0} → AwsPackage W A → Config → Exec W (S3Storage W)
  new_s3_storage aws cfg w = with_client aws cfg (aws.load_default_config (load_options cfg) w)

  unfoldable pub put_object : S3Storage W → Bytes → Bytes → ℕ → Bytes → Exec W (Unit {0})
  put_object s key body size content_type = s.client.put_object (record {
    bucket = s.bucket;
    key = sent_key key;
    body = body;
    content_length = size;
    content_type = content_type;
  })

  unfoldable pub head_object : S3Storage W → Bytes → Exec W (Unit {0})
  head_object s key = s.client.head_object s.bucket (sent_key key)

  abbrev pub read_body : Result (Result Bytes) × W → Result Bytes × W
  read_body (ok read, w) = (read, w)
  read_body (err e, w) = (err e, w)

  unfoldable pub get_object : S3Storage W → Bytes → Exec W Bytes
  get_object s key w = read_body (s.client.get_object s.bucket (sent_key key) w)

  abbrev pub object_infos : Result (List SdkObject) × W → Result (List ObjectInfo) × W
  object_infos (ok found, w) = (ok (map object_info found), w)
  object_infos (err e, w) = (err e, w)

  unfoldable pub list_objects : S3Storage W → Bytes → ℤ → Exec W (List ObjectInfo)
  list_objects s prefix max_keys w =
      object_infos (s.client.list_objects s.bucket (sent_key prefix) (or_hundred max_keys) w)

  unfoldable pub delete_object : S3Storage W → Bytes → Exec W (Unit {0})
  delete_object s key = s.client.delete_object s.bucket (sent_key key)

  unfoldable pub presign_get_url : S3Storage W → Bytes → ℕ → Exec W Bytes
  presign_get_url s key expires = s.client.presign_get_object s.bucket (sent_key key) expires

  unfoldable pub presign_put_url : S3Storage W → Bytes → Bytes → ℕ → Exec W Bytes
  presign_put_url s key content_type expires =
      s.client.presign_put_object s.bucket (sent_key key) content_type expires

  -- The receiver may be nil, and so may its configuration.
  unfoldable pub public_object_url : UrlPackage → Option (S3Storage W) → Bytes → Result Bytes
  unfolding build_public_object_url
  public_object_url urls none key = err nil_config
  public_object_url urls (some s) key = with_config urls key s.cfg
