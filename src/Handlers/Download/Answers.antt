-- ===== src/Handlers/Download/Answers.antt =====
-- What the download handler answers, in terms of the table.
use mathlib.Core.Path.{subst}
use audio_streaming_service.Common.{
  ℕ, ◌≡◌, ◌≢◌, refl, sym, ap, [], ◌∷◌, none, some, Bytes, codes, bytes_eq, bytes_eq_iff, Bool-cases,
  ◌⊎◌, inl, inr, Error, no_rows, Result, ok, err,
}
use audio_streaming_service.Handlers.{
  Request, Response, Packages, first_value, or_empty, json_response, download_body,
}
use audio_streaming_service.Handlers.Download.{
  DownloadHandler, load_failure, after_presign, after_load, after_scan, download,
}
use audio_streaming_service.Repository.{Track, Uuid}
use audio_streaming_service.Repository.Queries.{
  Row, id_arg, get_track_by_id_sql, one, get_track_by_id,
}
use audio_streaming_service.Std.Strings.{trim_prefix}
use audio_streaming_service.Repository.Tables.{select_by_id}
use audio_streaming_service.Repository.Tables.Rows.{scan_track-row_of}
use audio_streaming_service.Services.{
  Observed, Untouched, Untouched-refl, Untouched-trans, SelectOutcome, IsStorage, IsDatabase,
}
use audio_streaming_service.Storage.{presign_get_url}
use audio_streaming_service.TrackStorage.{presign_download, checked}
use audio_streaming_service.TrackStorage.Keys.{validate_key}

-- The `{track_id}` of the path
abbrev pub track_id_raw : Request → Bytes
track_id_raw r = or_empty (first_value (codes "track_id") r.vars)

load_failure-status : (e : Error) → e ≢ no_rows → (load_failure e).status ≡ 500
load_failure-status no_rows other = absurd (other refl)
load_failure-status _ other = refl

module _ {W : Type 0} (o : Observed W) (pkg : Packages W) (h : DownloadHandler W) where
  pub data GetOutcome (id : Uuid) (w : W) : Result Track × W → Type 0 where
    failed :
        {e : Error} {w' : W}
        → e ≢ no_rows
        → (h.queries.query_row get_track_by_id_sql (id_arg id ∷ []) w).0 ≡ err e
        → Untouched o w w'
        → GetOutcome id w (err e, w')
    missing :
        {w' : W}
        → select_by_id id (o.tracks w) ≡ none
        → Untouched o w w'
        → GetOutcome id w (err no_rows, w')
    found :
        {w' : W} (t : Track)
        → select_by_id id (o.tracks w) ≡ some t
        → Untouched o w w'
        → GetOutcome id w (ok t, w')

  one-GetOutcome :
      (id : Uuid) (w : W) {q : Result Row × W}
      → (h.queries.query_row get_track_by_id_sql (id_arg id ∷ []) w).0 ≡ q.0
      → SelectOutcome o id w q
      → GetOutcome id w (one q)
  one-GetOutcome id w asked (SelectOutcome.failed other same) = failed other asked same
  one-GetOutcome id w asked (SelectOutcome.missing gone same) = missing gone same
  one-GetOutcome id w asked (SelectOutcome.found {w' = w'} t there s same) =
      subst (λ r. GetOutcome id w (r, w')) (sym (scan_track-row_of t s)) (found t there same)

  get_track_by_id-GetOutcome :
      IsDatabase o h.queries
      → (id : Uuid) (w : W) → GetOutcome id w (get_track_by_id h.queries id w)
  unfolding get_track_by_id
  get_track_by_id-GetOutcome laws id w = one-GetOutcome id w refl (laws.select id w)

  -- The database fails, with another error than that there is no row.
  abbrev pub IsUnread : Uuid → W → Type 0
  IsUnread id w =
      (e : Error) × (e ≢ no_rows)
      × ((h.queries.query_row get_track_by_id_sql (id_arg id ∷ []) w).0 ≡ err e)

  -- The key of the row does not pass the check, or the storage fails to sign a URL for it, in the
  -- world `signed`.
  abbrev pub IsUnsigned : Track → W → Type 0
  IsUnsigned t signed =
      (e : Error) × ((validate_key t.original_object_key ≡ err e)
        ⊎ ((h.tracks.client.presign_get_object h.tracks.bucket
              (trim_prefix t.original_object_key (codes "/")) h.cfg.download_url_expires signed).0
            ≡ err e))

  -- Each answer and what it means. `signed` is the world in which the URL is signed.
  pub data IsAnswer (raw : Bytes) (w : W) (x : Response) : Type 0 where
    malformed :
        x.status ≡ 400 → (raw ≡ []) ⊎ ((e : Error) × (pkg.uuid_scan raw ≡ err e)) → IsAnswer raw w x
    not_found :
        (id : Uuid)
        → pkg.uuid_scan raw ≡ ok id
        → select_by_id id (o.tracks w) ≡ none
        → x.status ≡ 404
        → IsAnswer raw w x
    ready :
        (id : Uuid) (t : Track) (url : Bytes) (signed : W)
        → pkg.uuid_scan raw ≡ ok id
        → select_by_id id (o.tracks w) ≡ some t
        → Untouched o w signed
        → (presign_download h.tracks t.original_object_key h.cfg.download_url_expires signed).0
          ≡ ok url
        → x
          ≡ json_response 200 (
              download_body (record {
                track_id = pkg.uuid_string t.id;
                original_filename = t.original_filename;
                download_url = url;
              }))
        → IsAnswer raw w x
    unread :
        (id : Uuid) → pkg.uuid_scan raw ≡ ok id → IsUnread id w → x.status ≡ 500 → IsAnswer raw w x
    unsigned :
        (id : Uuid) (t : Track) (signed : W)
        → pkg.uuid_scan raw ≡ ok id
        → select_by_id id (o.tracks w) ≡ some t
        → Untouched o w signed
        → IsUnsigned t signed
        → x.status ≡ 500
        → IsAnswer raw w x

  module _ (storage : IsStorage o h.tracks.client) (database : IsDatabase o h.queries) where
    checked-Untouched :
        (c : Result (Unit {0})) (key : Bytes) (expires : ℕ) (w : W)
        → Untouched o w (checked c (presign_get_url h.tracks key expires) w).1
    unfolding presign_get_url
    checked-Untouched (ok tt) key expires w = storage.presign_get _ _ expires w
    checked-Untouched (err e) key expires w = Untouched-refl o w

    presign-Untouched :
        (key : Bytes) (expires : ℕ) (w : W)
        → Untouched o w (presign_download h.tracks key expires w).1
    unfolding presign_download
    presign-Untouched key expires w = checked-Untouched (validate_key key) key expires w

    checked-IsUnsigned :
        (t : Track) (c : Result (Unit {0})) (signed : W) {x : Error}
        → validate_key t.original_object_key ≡ c
        → (checked c
            (presign_get_url h.tracks t.original_object_key h.cfg.download_url_expires)
            signed).0
          ≡ err x
        → IsUnsigned t signed
    unfolding presign_get_url
    checked-IsUnsigned t (ok tt) signed {x} valid e = (x, inr e)
    checked-IsUnsigned t (err y) signed valid e = (y, inl valid)

    presign-IsUnsigned :
        (t : Track) (signed : W) {x : Error}
        → (presign_download h.tracks t.original_object_key h.cfg.download_url_expires signed).0
          ≡ err x
        → IsUnsigned t signed
    unfolding presign_download
    presign-IsUnsigned t signed e =
        checked-IsUnsigned t (validate_key t.original_object_key) signed refl e

    module _ (raw : Bytes) (w : W) (id : Uuid) (scanned : pkg.uuid_scan raw ≡ ok id) where
      IsAnswer-after_presign :
          (t : Track) (signed : W)
          → select_by_id id (o.tracks w) ≡ some t
          → Untouched o w signed
          → (q : Result Bytes × W)
          → presign_download h.tracks t.original_object_key h.cfg.download_url_expires signed ≡ q
          → IsAnswer raw w (after_presign pkg h t q).0 × ((after_presign pkg h t q).1 ≡ q.1)
      unfolding after_presign
      IsAnswer-after_presign t signed there same (ok url, w') e =
          (ready id t url signed scanned there same (ap (λ p. p.0) e) refl, refl)
      IsAnswer-after_presign t signed there same (err x, w') e =
          let unsigned_key = presign-IsUnsigned t signed (ap (λ p. p.0) e) in
          (unsigned id t signed scanned there same unsigned_key refl, refl)

      IsAnswer-after_load :
          {q : Result Track × W}
          → GetOutcome id w q
          → IsAnswer raw w (after_load pkg h q).0 × Untouched o w (after_load pkg h q).1
      unfolding after_load
      IsAnswer-after_load (GetOutcome.failed {e = x} other asked same) =
          (unread id scanned (x, other, asked) (load_failure-status x other), same)
      IsAnswer-after_load (GetOutcome.missing gone same) = (not_found id scanned gone refl, same)
      IsAnswer-after_load (GetOutcome.found {w' = w'} t there same) =
          let (a, e) = IsAnswer-after_presign t w' there same _ refl in
          (a, Untouched-trans o same (rw e (presign-Untouched _ _ w')))

    IsAnswer-after_scan :
        (raw : Bytes) (w : W) (s : Result Uuid)
        → pkg.uuid_scan raw ≡ s
        → IsAnswer raw w (after_scan pkg h s w).0 × Untouched o w (after_scan pkg h s w).1
    unfolding after_scan
    IsAnswer-after_scan raw w (ok id) e =
        IsAnswer-after_load raw w id e (get_track_by_id-GetOutcome database id w)
    IsAnswer-after_scan raw w (err x) e = (malformed refl (inr (x, e)), Untouched-refl o w)

    -- Where the services keep their laws, every download request is answered 400 where the id is
    -- missing or malformed; 404 where no row has it; 200 with the file name of the row that has it and
    -- a URL that is signed for its key; and 500 only where the database fails, or where that key does
    -- not pass the check or the storage fails to sign it. Nothing is changed.
    pub download-IsAnswer :
        (r : Request) (w : W)
        → IsAnswer (track_id_raw r) w (download pkg h r w).0 × Untouched o w (download pkg h r w).1
    unfolding download
    download-IsAnswer r w = elim (Bool-cases (bytes_eq (track_id_raw r) [])) [
      | inl no_id ↦
          rw no_id
            (malformed refl (inl ((bytes_eq_iff (track_id_raw r) []).0 no_id)), Untouched-refl o w)
      | inr given ↦
          rw given (IsAnswer-after_scan (track_id_raw r) w (pkg.uuid_scan (track_id_raw r)) refl)
    ]
