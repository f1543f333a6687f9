-- ===== src/Handlers/Tracks/Answers.antt =====
-- What the track list answers, in terms of the table.
use mathlib.Core.List.{Perm}
use audio_streaming_service.Common.{
  suc, ◌≡◌, ◌≢◌, refl, ap, ◌↔◌, List, [], ◌∷◌, map, length, Bytes, codes, bytes_eq_iff, ◌⊎◌, inl,
  inr, Result, ok, err, arith, Result-cases,
}
use audio_streaming_service.Handlers.{
  Request, Response, Packages, first_value, or_empty, json_response, tracks_body,
}
use audio_streaming_service.Handlers.Tracks.{
  track_statuses, parse_track_status, list_item, list_response, after_list, after_parse, tracks,
}
use audio_streaming_service.Repository.{Track, TrackStatus}
use audio_streaming_service.Repository.Queries.{
  Rows, Dbtx, scan_tracks, many, list_tracks_by_status,
}
use audio_streaming_service.Repository.Tables.{with_status}
use audio_streaming_service.Repository.Tables.Rows.{scan_tracks-map-row_of}
use audio_streaming_service.Services.{
  Observed, NewestFirst, Untouched, Untouched-refl, ListOutcome, IsDatabase,
}
use audio_streaming_service.Std.Strings.{trim_space}
use audio_streaming_service.Std.Strings.Laws.{IsOneOf, is_one_of_iff}

-- The values of TrackStatus in core-api/openapi.yaml
abbrev pub documented_statuses : List Bytes
documented_statuses = codes "pending" ∷ codes "processing" ∷ codes "ready" ∷ codes "failed" ∷ []

-- The status that a query parameter stands for: `ready` if it is empty, or itself
abbrev pub Denotes : Bytes → TrackStatus → Type 0
Denotes raw status =
    (raw ≡ []) × (status ≡ codes "ready")
    ⊎ (raw ≢ []) × IsOneOf raw documented_statuses × (status ≡ raw)

-- `parseTrackStatus` accepts exactly the empty text, for `ready`, and the texts pending, processing,
-- ready and failed, each for itself.
pub parse_track_status_iff :
    (raw : Bytes) (status : TrackStatus) → (parse_track_status raw ≡ ok status) ↔ Denotes raw status
unfolding parse_track_status
parse_track_status_iff raw status =
    ground (arith, bytes_eq_iff raw [], is_one_of_iff raw track_statuses)

module _ {W : Type 0} (o : Observed W) (pkg : Packages W) (queries : Dbtx W) where
  -- The rows with a status, newest first, as items of a list with its length
  abbrev pub IsListing : TrackStatus → W → Response → Type 0
  IsListing status w x =
      (ts : List Track) × Perm ts (with_status status (o.tracks w))
      × NewestFirst ts
      × (x
          ≡ json_response 200
              (tracks_body (record { items = map (list_item pkg queries) ts; total = length ts })))

  -- 400 where the parameter stands for no status; otherwise the listing of that status, or 500
  abbrev pub IsAnswer : Bytes → W → Response → Type 0
  IsAnswer raw w x =
      (x.status ≡ 400) × ¬ ((status : TrackStatus) × Denotes raw status)
      ⊎ ((status : TrackStatus) × Denotes raw status × (IsListing status w x ⊎ (x.status ≡ 500)))

  length-map_items : (ts : List Track) → length (map (list_item pkg queries) ts) ≡ length ts
  length-map_items [] = refl
  length-map_items (t ∷ ts) = ap (λ n. suc n) (length-map_items ts)

  listing :
      (status : TrackStatus) (w : W) (ts : List Track)
      → Perm ts (with_status status (o.tracks w))
      → NewestFirst ts
      → IsListing status w (list_response pkg queries (map (list_item pkg queries) ts))
  listing status w ts perm newest = (ts, perm, newest, rw (length-map_items ts) refl)

  many-IsListing :
      (status : TrackStatus) (w : W) {q : Result Rows × W}
      → ListOutcome o (with_status status (o.tracks w)) w q
      → (IsListing status w (after_list pkg queries (many q)).0
          ⊎ ((after_list pkg queries (many q)).0.status ≡ 500))
        × Untouched o w (after_list pkg queries (many q)).1
  unfolding after_list
  many-IsListing status w (ListOutcome.failed same) = (inr refl, same)
  many-IsListing status w (ListOutcome.broken {w' = w'} rows e lost same) =
      elim (Result-cases (scan_tracks rows.fetched)) [
        | inl (ts, read) ↦ rw read (rw lost (inr refl, same))
        | inr (x, unread) ↦ rw unread (inr refl, same)
      ]
  many-IsListing status w (ListOutcome.listed {w' = w'} ts perm newest stored same) =
      rw (scan_tracks-map-row_of ts stored) (inl (listing status w ts perm newest), same)

  module _ (database : IsDatabase o queries) where
    IsAnswer-after_parse :
        (raw : Bytes) (w : W) (s : Result TrackStatus)
        → parse_track_status raw ≡ s
        → IsAnswer raw w (after_parse pkg queries s w).0
          × Untouched o w (after_parse pkg queries s w).1
    unfolding after_parse list_tracks_by_status
    IsAnswer-after_parse raw w (ok status) e =
        let (a, same) = many-IsListing status w (database.list status w) in
        (inr (status, (parse_track_status_iff raw status).0 e, a), same)
    IsAnswer-after_parse raw w (err x) e = (
      inl (refl, λ (status, d). cc (e, (parse_track_status_iff raw status).1 d)),
      Untouched-refl o w,
    )

    -- Where the database keeps its laws, every list request is answered 400 where its trimmed status parameter is neither empty nor
    -- one of the four statuses; otherwise 200 with exactly the rows of that status (`ready` if it
    -- is empty), newest first, and their number, or 500; and nothing is changed.
    pub tracks-IsAnswer :
        (r : Request) (w : W)
        → IsAnswer
            (trim_space (or_empty (first_value (codes "status") r.query)))
            w
            (tracks pkg queries r w).0
          × Untouched o w (tracks pkg queries r w).1
    unfolding tracks
    tracks-IsAnswer r w =
        IsAnswer-after_parse (trim_space (or_empty (first_value (codes "status") r.query))) w
          (parse_track_status (trim_space (or_empty (first_value (codes "status") r.query)))) refl
