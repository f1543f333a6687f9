-- ===== src/Tests/Objects.antt =====
-- An object that is stored, read and signed.
use audio_streaming_service.Common.{
  ℕ, zero, suc, ◌≡◌, refl, List, [], ◌∷◌, ◌++◌, All, none, some, Bytes, codes, bytes_eq, service,
  Result, ok, err, arith, ℤ, pos, negsuc,
}
use audio_streaming_service.Config.{build_public_object_url}
use audio_streaming_service.Std.Path.{clean, path_join, ext}
use audio_streaming_service.Std.Strings.{trim_space, trim_prefix, contains, to_lower, is_one_of}
use audio_streaming_service.Storage.{
  SdkObject, S3Storage, put_object, list_objects, public_object_url, presign_get_url,
}
use audio_streaming_service.Tests.Memory.{
  World, observed, empty_world, memory_client, memory_client-IsStorage,
}
use audio_streaming_service.Tests.Setup.{memory_storage, packages}
use audio_streaming_service.TrackStorage.{
  StoredObject, with_urls, list_raw, put_original, get, keyed, presign_original_download,
}
use audio_streaming_service.TrackStorage.Keys.{
  original_key, normalize_segment, validate_audio_extension,
}
use audio_streaming_service.TrackStorage.Listing.{
  ListingOutcome, IsLister, IsItem, IsAtMost, folder, list_raw-IsItem,
}
use audio_streaming_service.TrackStorage.Objects.{
  FetchOutcome, IsReadable, IsRead, get-put_original,
}

memory_client-IsReadable : IsReadable observed memory_client
memory_client-IsReadable = record { fetch = λ b k c w there. rw there FetchOutcome.fetched }

abbrev track_id : Bytes
track_id = codes "/Track_7/"

abbrev song : Bytes
song = codes "blue.OGG"

abbrev after_put : World
after_put =
    (put_original (packages ok).urls memory_storage track_id song (1 ∷ 2 ∷ []) [] empty_world).1

abbrev stored : StoredObject
stored = record {
  key = codes "raw/Track_7/original.ogg";
  size = 2;
  last_modified = none;
  public_url = codes "/public/raw/Track_7/original.ogg";
}

song-stored :
    put_original (packages ok).urls memory_storage track_id song (1 ∷ 2 ∷ []) [] empty_world
    ≡ (ok stored, after_put)
unfolding put_original original_key normalize_segment validate_audio_extension trim_space
    trim_prefix contains to_lower is_one_of clean path_join ext put_object public_object_url
    build_public_object_url bytes_eq
song-stored = refl

get-put_original_example :
    IsRead observed
      (1 ∷ 2 ∷ [])
      (memory_client.get_object (codes "tracks") (codes "raw/Track_7/original.ogg") after_put)
      (get memory_storage (codes "raw/Track_7/original.ogg") after_put)
    × ((expires : ℕ) (v : World)
        → presign_original_download memory_storage track_id song expires v
          ≡ keyed memory_storage
              (codes "raw/Track_7/original.ogg")
              (presign_get_url memory_storage (codes "raw/Track_7/original.ogg") expires v))
get-put_original_example =
    get-put_original observed (packages ok).urls memory_storage track_id song (1 ∷ 2 ∷ []) []
      empty_world after_put stored song-stored memory_client-IsStorage memory_client-IsReadable

-- An object storage that has one object under every prefix
abbrev first_of : ℤ → Bytes → Result (List SdkObject)
first_of (negsuc m) prefix = err service
first_of (pos zero) prefix = ok []
first_of (pos (suc m)) prefix = ok (
    record { key = some (prefix ++ codes "original.mp3"); size = some 2; last_modified = none }
    ∷ [])

abbrev listing_storage : S3Storage World
listing_storage = record memory_storage {
  client = record memory_client { list_objects = λ b prefix n w. (first_of n prefix, w) };
}

first_of-ListingOutcome :
    (n : ℤ) (prefix : Bytes) (w : World) → ListingOutcome prefix n (first_of n prefix, w)
first_of-ListingOutcome (negsuc m) prefix w = ListingOutcome.failed
first_of-ListingOutcome (pos zero) prefix w = ListingOutcome.found [] tt (omega arith)
first_of-ListingOutcome (pos (suc m)) prefix w =
    ListingOutcome.found _ ((codes "original.mp3", refl), tt) (omega arith)

listing_storage-IsLister : IsLister listing_storage.client
listing_storage-IsLister = record { list = λ b prefix n w. first_of-ListingOutcome n prefix w }

abbrev listed_song : StoredObject
listed_song = record {
  key = codes "raw/Track_7/original.mp3";
  size = 2;
  last_modified = none;
  public_url = codes "/public/raw/Track_7/original.mp3";
}

song_listed :
    (list_raw (packages ok).urls listing_storage track_id (pos 0) empty_world).0
    ≡ ok (listed_song ∷ [])
unfolding list_raw with_urls list_objects normalize_segment trim_space trim_prefix contains clean
    path_join public_object_url build_public_object_url bytes_eq
song_listed = refl

list_raw-IsItem_example :
    (segment : Bytes) × (normalize_segment track_id ≡ ok segment)
    × All (IsItem (packages ok).urls listing_storage (folder segment)) (listed_song ∷ [])
    × IsAtMost 1 (pos 0)
list_raw-IsItem_example =
    list_raw-IsItem (packages ok).urls listing_storage listing_storage-IsLister track_id (pos 0)
      empty_world (listed_song ∷ []) song_listed
