-- ===== src/Handlers/Reads.antt =====
-- The download handler and the track list where no call of theirs fails.
use mathlib.Core.List.{Mem, Perm, mem-map_of_mem}
use audio_streaming_service.Common.{
  ℕ, ◌≡◌, ◌≢◌, refl, sym, ap, ◌∙◌, List, [], ◌∷◌, map, none, some, Bytes, codes, bytes_eq,
  bytes_eq_iff, Bool-cases, inl, inr, Error, no_rows, Result, ok, err, Result-cases,
}
use mathlib.Core.List.Perm
use mathlib.Core.Option.{some-injective}
use audio_streaming_service.Config.{Config}
use audio_streaming_service.Handlers.{
  Request, Packages, first_value, or_empty, json_response, download_body,
}
use audio_streaming_service.Handlers.Download.{
  new_download_handler, after_presign, after_load, after_scan, download,
}
use audio_streaming_service.Handlers.Download.Answers.{track_id_raw}
use audio_streaming_service.Handlers.Tracks.{list_item, list_response, after_list, tracks}
use audio_streaming_service.Handlers.Tracks.Answers.{Denotes, parse_track_status_iff}
use audio_streaming_service.Handlers.Upload.Success.{Succeeds}
use audio_streaming_service.Repository.{Track, Uuid, TrackStatus, text}
use audio_streaming_service.Repository.Queries.{
  Dbtx, Row, Rows, get_track_by_id_sql, list_tracks_by_status_sql, id_arg, one, many,
  get_track_by_id, list_tracks_by_status,
}
use audio_streaming_service.Repository.Tables.{select_by_id, with_status}
use audio_streaming_service.Repository.Tables.Rows.{scan_track-row_of, scan_tracks-map-row_of}
use audio_streaming_service.Services.{Observed, Untouched, SelectOutcome, ListOutcome, IsDatabase}
use audio_streaming_service.Std.Strings.{trim_space, trim_prefix}
use audio_streaming_service.Std.Strings.Laws.{IsOneOf}
use audio_streaming_service.Storage.{S3Storage, presign_get_url}
use audio_streaming_service.TrackStorage.{presign_download}
use audio_streaming_service.TrackStorage.Keys.{audio_extensions}
use audio_streaming_service.TrackStorage.Keys.KeyChecks.{validate_key-layout, trim_prefix-layout}
use audio_streaming_service.TrackStorage.Keys.OriginalKeys.{layout}
use audio_streaming_service.TrackStorage.Keys.Segments.{IsSegment}

-- The rows that a query answered come to their end.
unfoldable pub IsWhole : {W : Type 0} → Result Rows × W → Type 0
IsWhole (ok rows, w) = rows.failure ≡ none
IsWhole (err e, w) = ⊥

-- No call that reads fails; that there is no row is no failure.
pub record ReadsWork {W : Type 0} (queries : Dbtx W) (store : S3Storage W) : Type 0 where
  pub select :
      (id : Uuid) (w : W) (x : Error)
      → (queries.query_row get_track_by_id_sql (id_arg id ∷ []) w).0 ≡ err x
      → x ≡ no_rows
  pub list :
      (status : TrackStatus) (w : W)
      → IsWhole (queries.query list_tracks_by_status_sql (text status ∷ []) w)
  pub presign :
      (b k : Bytes) (expires : ℕ) (w : W) → Succeeds (store.client.presign_get_object b k expires w)

module _ {W : Type 0} (o : Observed W) (store : S3Storage W) where
  -- The URL that is signed for a key, in some world that looks like `w`
  pub record IsSigned (key : Bytes) (expires : ℕ) (w : W) (url : Bytes) : Type 0 where
    pub signed : W
    pub same : Untouched o w signed
    pub url_eq : (store.client.presign_get_object store.bucket key expires signed).0 ≡ ok url

module _ {W : Type 0} (o : Observed W) (pkg : Packages W) (queries : Dbtx W) (store : S3Storage W)
    (database : IsDatabase o queries) (works : ReadsWork queries store) where
  one-found :
      (id : Uuid) (t : Track) (w : W) {q : Result Row × W}
      → select_by_id id (o.tracks w) ≡ some t
      → SelectOutcome o id w q
      → ((x : Error) → q.0 ≡ err x → x ≡ no_rows)
      → (w' : W) × Untouched o w w' × (one q ≡ (ok t, w'))
  one-found id t w there (SelectOutcome.failed {e = x} other same) s = absurd (other (s x refl))
  one-found id t w there (SelectOutcome.missing gone same) s = cc
  one-found id t w there (SelectOutcome.found {w' = w'} t' there' stored same) s = (
    w',
    same,
    rw (scan_track-row_of t' stored)
        (ap (λ u. (ok u, w')) (some-injective t' t (sym there' ∙ there))),
  )

  get_track_by_id-found :
      (id : Uuid) (t : Track) (w : W)
      → select_by_id id (o.tracks w) ≡ some t
      → (w' : W) × Untouched o w w' × (get_track_by_id queries id w ≡ (ok t, w'))
  unfolding get_track_by_id
  get_track_by_id-found id t w there =
      one-found id t w there (database.select id w) (works.select id w)

  many-listed :
      (status : TrackStatus) (w : W) {q : Result Rows × W}
      → ListOutcome o (with_status status (o.tracks w)) w q
      → IsWhole q
      → (ts : List Track) × (w' : W) × Perm ts (with_status status (o.tracks w))
        × (many q ≡ (ok ts, w'))
  unfolding IsWhole
  many-listed status w (ListOutcome.failed same) s = absurd s
  many-listed status w (ListOutcome.broken rows e lost same) s = cc
  many-listed status w (ListOutcome.listed {w' = w'} ts perm newest stored same) s =
      (ts, w', perm, rw (scan_tracks-map-row_of ts stored) refl)

  presign-done :
      (segment e : Bytes)
      → IsSegment segment
      → IsOneOf e audio_extensions
      → (expires : ℕ) (w : W)
      → (url : Bytes) × (w' : W) × (presign_download store (layout segment e) expires w
          ≡ (ok url, w'))
        × ((store.client.presign_get_object store.bucket (layout segment e) expires w).0 ≡ ok url)
  unfolding presign_download presign_get_url trim_prefix
  presign-done segment e named audio expires w = rw (validate_key-layout segment e named audio) (
      rw (trim_prefix-layout segment e)
        (elim (Result-cases
          (store.client.presign_get_object store.bucket (layout segment e) expires w).0) [
            | inl (url, done) ↦ (
              url,
              _,
              ap
                  (λ r. (
                    r,
                    (store.client.presign_get_object store.bucket (layout segment e) expires w).1,
                  ))
                  done,
              done,
            )
            | inr (x, failed) ↦ absurd (works.presign _ _ expires w x failed)
          ]))

  -- A row with the key of an original is answered with its name and a URL signed for that key.
  pub download-found :
      (cfg : Config) (r : Request) (w : W) (id : Uuid) (t : Track) (segment e : Bytes)
      → IsSegment segment
      → IsOneOf e audio_extensions
      → t.original_object_key ≡ layout segment e
      → track_id_raw r ≢ []
      → pkg.uuid_scan (track_id_raw r) ≡ ok id
      → select_by_id id (o.tracks w) ≡ some t
      → (url : Bytes) × IsSigned o store (layout segment e) cfg.download_url_expires w url
        × ((download pkg (new_download_handler cfg queries store) r w).0
            ≡ json_response 200 (
                download_body (record {
                  track_id = pkg.uuid_string t.id;
                  original_filename = t.original_filename;
                  download_url = url;
                })))
  unfolding download after_scan after_load after_presign
  download-found cfg r w id t segment e named audio key given scanned there =
      let (w', same, got) = get_track_by_id-found id t w there in
      let (url, w'', done, signs) =
        presign-done segment e named audio cfg.download_url_expires w' in
      elim (Bool-cases (bytes_eq (track_id_raw r) [])) [
        | inl no_id ↦ absurd (given ((bytes_eq_iff (track_id_raw r) []).0 no_id))
        | inr some_id ↦ (
          url,
          record { signed = w'; same = same; url_eq = signs },
          rw some_id (rw scanned (rw got (rw key (rw done refl)))),
        )
      ]

  -- A row is listed under its status.
  pub tracks-listed :
      (r : Request) (w : W) (t : Track)
      → Denotes (trim_space (or_empty (first_value (codes "status") r.query))) t.status
      → Mem t (with_status t.status (o.tracks w))
      → (ts : List Track) × Mem (list_item pkg queries t) (map (list_item pkg queries) ts)
        × Perm ts (with_status t.status (o.tracks w))
        × ((tracks pkg queries r w).0 ≡ list_response pkg queries (map (list_item pkg queries) ts))
  unfolding tracks after_list list_tracks_by_status
  tracks-listed r w t denotes there =
      let (ts, w', perm, got) =
        many-listed t.status w (database.list t.status w) (works.list t.status w) in
      (
        ts,
        mem-map_of_mem (list_item pkg queries) ((Perm.mem_iff perm).1 there),
        perm,
        rw ((parse_track_status_iff _ t.status).1 denotes) (rw got refl),
      )
