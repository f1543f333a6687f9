-- ===== src/Tests/Requests.antt =====
-- Download and list requests, a published job, and the answers behind CORS.
use audio_streaming_service.Common.{◌≡◌, ◌≢◌, ◌↔◌, [], ◌∷◌, none, codes, bytes_eq, ok, ◌⊎◌}
use audio_streaming_service.Handlers.{empty, Request, Packages, Response, first_value, or_empty}
use audio_streaming_service.Handlers.Download.{DownloadHandler, download}
use audio_streaming_service.Handlers.Download.Answers
use audio_streaming_service.Handlers.Tracks.{tracks, parse_track_status}
use audio_streaming_service.Handlers.Tracks.Answers.{
  Denotes, parse_track_status_iff, tracks-IsAnswer,
}
use audio_streaming_service.Repository.{Track}
use audio_streaming_service.Repository.Queries.{CreateTrackParams, scan_track}
use audio_streaming_service.Repository.Tables.{inserted}
use audio_streaming_service.Repository.Tables.Rows.{
  IsStored, row_of, scan_track-row_of, inserted-IsStored,
}
use audio_streaming_service.Server.{health, with_permissive_cors}
use audio_streaming_service.Server.Cors.{IsPermitted, with_permissive_cors_lem}
use audio_streaming_service.Services.{Untouched}
use audio_streaming_service.Std.Strings.{trim_space}
use audio_streaming_service.Tests.Memory.{
  World, observed, memory_client-IsStorage, memory_db, memory_db-IsDatabase,
}
use audio_streaming_service.Tests.Setup.{packages, config, memory_storage}

abbrev pub song : CreateTrackParams
song = record {
  artist = codes "Nina";
  title = codes "Blue";
  original_filename = codes "blue.mp3";
  original_object_key = codes "raw/5a/original.mp3";
  original_size = 2;
  status = codes "ready";
}

abbrev pub stored_song : Track
stored_song = inserted song (codes "u1") 3

pub song-IsStored : IsStored stored_song
song-IsStored = inserted-IsStored song (codes "u1") 3

abbrev pub one_song : World
one_song = record {
  table = stored_song ∷ [];
  stored = (song-IsStored, tt);
  bucket = λ b k. none;
  topic = [];
  now = 4;
}

abbrev pub downloads : DownloadHandler World
downloads = record { queries = memory_db; tracks = memory_storage; cfg = config }

abbrev pub download_request : Request
download_request = record {
  method = codes "GET";
  path = codes "/download/u1";
  query = [];
  vars = (codes "track_id", codes "u1") ∷ [];
  form_size = 0;
  form = none;
}

download-IsAnswer_example :
    Answers.IsAnswer observed
      (packages ok)
      downloads
      (codes "u1")
      one_song
      (download (packages ok) downloads download_request one_song).0
    × Untouched observed one_song (download (packages ok) downloads download_request one_song).1
unfolding bytes_eq
download-IsAnswer_example =
    Answers.download-IsAnswer observed (packages ok) downloads memory_client-IsStorage
      memory_db-IsDatabase download_request one_song

abbrev list_request : Request
list_request = record {
  method = codes "GET";
  path = codes "/tracks";
  query = (codes "status", codes " ready") ∷ [];
  vars = [];
  form_size = 0;
  form = none;
}

tracks-IsAnswer_example :
    audio_streaming_service.Handlers.Tracks.Answers.IsAnswer observed
      (packages ok)
      memory_db
      (trim_space (codes " ready"))
      one_song
      (tracks (packages ok) memory_db list_request one_song).0
    × Untouched observed one_song (tracks (packages ok) memory_db list_request one_song).1
unfolding bytes_eq
tracks-IsAnswer_example =
    tracks-IsAnswer observed (packages ok) memory_db memory_db-IsDatabase list_request one_song

parse_track_status_iff_example :
    (parse_track_status (codes "failed") ≡ ok (codes "failed"))
    ↔ Denotes (codes "failed") (codes "failed")
parse_track_status_iff_example = parse_track_status_iff (codes "failed") (codes "failed")

scan_track-row_of_example : scan_track (row_of stored_song) ≡ ok stored_song
scan_track-row_of_example = scan_track-row_of stored_song song-IsStored

with_permissive_cors_lem_example :
    let q = with_permissive_cors (health {W = World}) list_request one_song in
    IsPermitted q.0
    × (((codes "GET" ≡ codes "OPTIONS")
          × (q.0.status ≡ 204)
          × (q.0.body ≡ empty)
          × (q.1 ≡ one_song))
        ⊎ ((codes "GET" ≢ codes "OPTIONS")
            × (q.0.status ≡ (health {W = World} list_request one_song).0.status)
            × (q.0.body ≡ (health {W = World} list_request one_song).0.body)
            × (first_value (codes "Content-Type") q.0.headers
                ≡ first_value
                    (codes "Content-Type")
                    (health {W = World} list_request one_song).0.headers)
            × (q.1 ≡ (health {W = World} list_request one_song).1)))
with_permissive_cors_lem_example =
    with_permissive_cors_lem (health {W = World}) list_request one_song (codes "Content-Type")
      ((λ e. cc), ((λ e. cc), ((λ e. cc), ((λ e. cc), tt))))
