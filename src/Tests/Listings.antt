-- ===== src/Tests/Listings.antt =====
-- The tables of the world in memory, listed.
use audio_streaming_service.Common.{[], ◌∷◌, codes}
use audio_streaming_service.Repository.{text}
use audio_streaming_service.Repository.Listings.{
  all_rows, ready_rows, IsCatalogue, IsListed, list_tracks-IsListed,
}
use audio_streaming_service.Repository.Queries.{
  list_tracks_sql, list_ready_tracks_sql, list_tracks_by_status_sql, list_tracks, list_ready_tracks,
  list_tracks_by_status,
}
use audio_streaming_service.Repository.Tables.{with_status}
use audio_streaming_service.Repository.Tables.Rows.{IsStored}
use audio_streaming_service.Services.{Untouched-refl, ListOutcome}
use audio_streaming_service.Tests.Memory.{
  observed, memory_db, memory_db-IsDatabase, run_query, with_status-All,
}
use audio_streaming_service.Tests.Requests.{one_song}
use audio_streaming_service.Tests.Sorting.{
  newest_first, newest_first-NewestFirst, newest_first-perm, All-newest_first,
}

memory_db-IsCatalogue : IsCatalogue observed memory_db
unfolding run_query
memory_db-IsCatalogue = record {
  list_all = λ w.
      ListOutcome.listed (newest_first w.table) (newest_first-perm _) (newest_first-NewestFirst _)
        (All-newest_first IsStored _ w.stored) (Untouched-refl observed w);
  list_ready = λ w.
      ListOutcome.listed (newest_first (ready_rows w.table)) (newest_first-perm _)
        (newest_first-NewestFirst _)
        (All-newest_first IsStored _ (with_status-All IsStored (codes "ready") w.table w.stored))
        (Untouched-refl observed w);
}

list_tracks-IsListed_example :
    IsListed observed
      (all_rows one_song.table)
      one_song
      (memory_db.query list_tracks_sql [] one_song)
      (list_tracks memory_db one_song)
    × IsListed observed
        (ready_rows one_song.table)
        one_song
        (memory_db.query list_ready_tracks_sql [] one_song)
        (list_ready_tracks memory_db one_song)
    × IsListed observed
        (with_status (codes "ready") one_song.table)
        one_song
        (memory_db.query list_tracks_by_status_sql (text (codes "ready") ∷ []) one_song)
        (list_tracks_by_status memory_db (codes "ready") one_song)
list_tracks-IsListed_example =
    list_tracks-IsListed observed memory_db memory_db-IsDatabase memory_db-IsCatalogue
      (codes "ready") one_song
