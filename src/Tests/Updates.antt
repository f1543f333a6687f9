-- ===== src/Tests/Updates.antt =====
-- A database in memory that changes the status of tracks.
use audio_streaming_service.Common.{
  ℕ, ◌≡◌, refl, Bool, true, false, List, [], ◌∷◌, Option, none, some, Bytes, codes, no_rows,
  service, Result, ok, err, All, if◌then◌else◌,
}
use audio_streaming_service.Repository.{
  Uuid, Track, Value, uuid, text, TrackStatus, track_status_failed, track_status_processing,
}
use audio_streaming_service.Repository.Lifecycle.{
  UpdateOutcome, IsUpdatable, MarkAnswer, mark_track-MarkAnswer,
}
use audio_streaming_service.Repository.Queries.{
  Statement, mark_track_failed_sql, mark_track_processing_sql, mark_track_ready_sql, Row, Dbtx,
  id_arg, text_arg, mark_track_failed, mark_track_processing, mark_track_ready,
}
use audio_streaming_service.Repository.Tables.{
  valid_uuid, has_id, select_by_id, update_by_id, set_status, set_ready,
}
use audio_streaming_service.Repository.Tables.Rows.{IsStored, row_of}
use audio_streaming_service.Services.{Untouched-refl}
use audio_streaming_service.Tests.Memory.{
  World, observed, select_by_id-All, select_null, run_exec, run_query,
}
use audio_streaming_service.Tests.Requests.{one_song}

record Change : Type 0 where
  update : Track → Track
  keeps : (t : Track) → IsStored t → IsStored (update t)

update_by_id-All :
    (c : Change) (id : Uuid) (ts : List Track)
    → All IsStored ts
    → All IsStored (update_by_id c.update id ts)
unfolding update_by_id
update_by_id-All c id [] _ = tt
update_by_id-All c id (t ∷ ts) (s, ss) = (one (has_id id t), update_by_id-All c id ts ss)
  where
    one : (b : Bool) → IsStored (if b then c.update t else t)
    one true = c.keeps t s
    one false = s

abbrev marking : TrackStatus → ℕ → Change
unfolding set_status
marking status now = record {
  update = set_status status now;
  keeps = λ t s. record { id = s.id; uploaded_at = s.uploaded_at; updated_at = refl };
}

abbrev publishing : Option Bytes → ℕ → Change
unfolding set_ready
publishing key now = record {
  update = set_ready key now;
  keeps = λ t s. record { id = s.id; uploaded_at = s.uploaded_at; updated_at = refl };
}

update_found : Change → Uuid → World → Option Track → Result Row × World
update_found c id w none = (err no_rows, w)
update_found c id w (some t) = (
  ok (row_of (c.update t)),
  record w {
    table = update_by_id c.update id w.table;
    stored = update_by_id-All c id w.table w.stored;
  },
)

update_at : (ℕ → Change) → List Value → World → Result Row × World
unfolding update_found
update_at c (uuid b ∷ _) w =
    update_found (c w.now) (valid_uuid b) w (select_by_id (valid_uuid b) w.table)
update_at c _ w = (err no_rows, w)

abbrev key_of : List Value → Option Bytes
key_of (_ ∷ text s ∷ _) = some s
key_of _ = none

run_update : Statement → List Value → World → Result Row × World
unfolding update_at
run_update mark_track_failed_sql args w = update_at (marking track_status_failed) args w
run_update mark_track_processing_sql args w = update_at (marking track_status_processing) args w
run_update mark_track_ready_sql args w = update_at (publishing (key_of args)) args w
run_update _ _ w = (err service, w)

abbrev updating_db : Dbtx World
updating_db = record { exec = run_exec; query = run_query; query_row = run_update }

update_found-UpdateOutcome :
    (c : ℕ → Change) (id : Uuid) (w : World) (found : Option Track)
    → select_by_id id w.table ≡ found
    → UpdateOutcome observed (λ now. (c now).update) id w (update_found (c w.now) id w found)
unfolding update_found
update_found-UpdateOutcome c id w none e = UpdateOutcome.missing e (Untouched-refl observed w)
update_found-UpdateOutcome c id w (some t) e =
    UpdateOutcome.done t w.now e (select_by_id-All IsStored id w.table w.stored e)
      (record { tracks = refl; objects = record { at = λ b k. refl }; jobs = refl })

update_at-UpdateOutcome :
    (c : ℕ → Change) (b : Bytes) (valid : Bool) (rest : List Value) (w : World)
    → let id : Uuid = record { bytes = b; valid = valid } in
      UpdateOutcome observed (λ now. (c now).update) id w (update_at c (id_arg id ∷ rest) w)
unfolding update_at
update_at-UpdateOutcome c b true rest w = update_found-UpdateOutcome c (valid_uuid b) w _ refl
update_at-UpdateOutcome c b false rest w =
    UpdateOutcome.missing (select_null b w.table) (Untouched-refl observed w)

publish-UpdateOutcome :
    (id : Uuid) (key : Option Bytes) (w : World)
    → UpdateOutcome observed
        (set_ready key)
        id
        w
        (run_update mark_track_ready_sql (id_arg id ∷ text_arg key ∷ []) w)
unfolding run_update set_ready publishing
publish-UpdateOutcome id none w = update_at-UpdateOutcome (publishing none) id.bytes id.valid _ w
publish-UpdateOutcome id (some s) w =
    update_at-UpdateOutcome (publishing (some s)) id.bytes id.valid _ w

updating_db-IsUpdatable : IsUpdatable observed updating_db
unfolding run_update set_status marking
updating_db-IsUpdatable = record {
  fail = λ id w. update_at-UpdateOutcome (marking track_status_failed) id.bytes id.valid [] w;
  process =
      λ id w. update_at-UpdateOutcome (marking track_status_processing) id.bytes id.valid [] w;
  publish = publish-UpdateOutcome;
}

mark_track-MarkAnswer_example :
    MarkAnswer observed
      (valid_uuid (codes "u1"))
      (codes "failed")
      (λ t. t.hls_playlist_key)
      one_song
      (mark_track_failed updating_db (valid_uuid (codes "u1")) one_song)
    × MarkAnswer observed
        (valid_uuid (codes "u1"))
        (codes "processing")
        (λ t. t.hls_playlist_key)
        one_song
        (mark_track_processing updating_db (valid_uuid (codes "u1")) one_song)
    × MarkAnswer observed
        (valid_uuid (codes "u1"))
        (codes "ready")
        (λ t. some (codes "u1.m3u8"))
        one_song
        (mark_track_ready updating_db
          (record { id = valid_uuid (codes "u1"); hls_playlist_key = some (codes "u1.m3u8") })
          one_song)
mark_track-MarkAnswer_example =
    mark_track-MarkAnswer observed updating_db updating_db-IsUpdatable (valid_uuid (codes "u1"))
      (some (codes "u1.m3u8")) one_song
