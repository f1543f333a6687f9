-- ===== src/TrackStorage.antt =====
-- core-api/usecases/track_storage.go
pub mod Keys
pub mod Listing
pub mod Objects
use audio_streaming_service.Common.{
  ℕ, List, [], ◌∷◌, ◌++◌, Option, none, some, Bytes, codes, bytes_eq, Result, ok, err, Exec, ℤ,
  ◌>>=◌, if◌then◌else◌, length,
}
use audio_streaming_service.Config.{UrlPackage}
use audio_streaming_service.Std.Path.{path_join}
use audio_streaming_service.Storage.{
  S3Storage, ObjectInfo, put_object, get_object, delete_object, list_objects, presign_get_url,
  presign_put_url, public_object_url,
}
use Keys.{normalize_segment, original_key, validate_key}

pub record StoredObject : Type 0 where
  pub key : Bytes
  pub size : ℕ
  pub last_modified : Option ℕ
  pub public_url : Bytes

abbrev pub or_octet_stream : Bytes → Bytes
or_octet_stream content_type =
    if bytes_eq content_type [] then codes "application/octet-stream" else content_type

-- `NewTrackStorage`: a `TrackStorage` holds an `S3Storage` and nothing else.
abbrev pub new_track_storage : {W : Type 0} → S3Storage W → S3Storage W
new_track_storage store = store

module _ {W : Type 0} (urls : UrlPackage) (store : S3Storage W) where
  abbrev pub stored_object : Bytes → Bytes → Result (Unit {0}) × W → Result StoredObject × W
  stored_object key body (ok tt, w) = (
    (do
      url ← public_object_url urls (some store) key
      ok (record { key = key; size = length body; last_modified = none; public_url = url })),
    w,
  )
  stored_object key body (err e, w) = (err e, w)

  abbrev pub put_under : Bytes → Bytes → Result Bytes → Exec W StoredObject
  put_under body content_type (ok key) w =
      stored_object key body
        (put_object store key body (length body) (or_octet_stream content_type) w)
  put_under body content_type (err e) w = (err e, w)

  unfoldable pub put_original : Bytes → Bytes → Bytes → Bytes → Exec W StoredObject
  put_original track_id original_filename body content_type =
      put_under body content_type (original_key track_id original_filename)

  -- The loop over the listed objects stops at the first URL that cannot be built.
  unfoldable pub with_urls : List ObjectInfo → Result (List StoredObject)
  with_urls [] = ok []
  with_urls (item ∷ items) = do
    url ← public_object_url urls (some store) item.key
    rest ← with_urls items
    ok (
        record {
          key = item.key;
          size = item.size;
          last_modified = item.last_modified;
          public_url = url;
        }
        ∷ rest)

  abbrev pub listed : Result (List ObjectInfo) × W → Result (List StoredObject) × W
  listed (ok items, w) = (with_urls items, w)
  listed (err e, w) = (err e, w)

  abbrev pub list_under : ℤ → Result Bytes → Exec W (List StoredObject)
  list_under max_keys (ok track_id) w =
      listed (list_objects store (path_join (codes "raw" ∷ track_id ∷ []) ++ codes "/") max_keys w)
  list_under max_keys (err e) w = (err e, w)

  unfoldable pub list_raw : Bytes → ℤ → Exec W (List StoredObject)
  unfolding with_urls
  list_raw track_id max_keys = list_under max_keys (normalize_segment track_id)

abbrev pub checked : {W A : Type 0} → Result (Unit {0}) → Exec W A → Exec W A
checked (ok tt) act w = act w
checked (err e) act w = (err e, w)

module _ {W : Type 0} (store : S3Storage W) where
  unfoldable pub get : Bytes → Exec W Bytes
  get key = checked (validate_key key) (get_object store key)

  unfoldable pub delete : Bytes → Exec W (Unit {0})
  delete key = checked (validate_key key) (delete_object store key)

  unfoldable pub presign_upload : Bytes → Bytes → ℕ → Exec W Bytes
  presign_upload key content_type expires =
      checked (validate_key key) (presign_put_url store key (or_octet_stream content_type) expires)

  unfoldable pub presign_download : Bytes → ℕ → Exec W Bytes
  presign_download key expires = checked (validate_key key) (presign_get_url store key expires)

  abbrev pub keyed : Bytes → Result Bytes × W → Result (Bytes × Bytes) × W
  keyed key (ok url, w) = (ok (key, url), w)
  keyed key (err e, w) = (err e, w)

  abbrev pub presign_under : ℕ → Result Bytes → Exec W (Bytes × Bytes)
  presign_under expires (ok key) w = keyed key (presign_get_url store key expires w)
  presign_under expires (err e) w = (err e, w)

  unfoldable pub presign_original_download : Bytes → Bytes → ℕ → Exec W (Bytes × Bytes)
  presign_original_download track_id original_filename expires =
      presign_under expires (original_key track_id original_filename)
