-- ===== src/Handlers/Playback.antt =====
-- An upload, and the requests for its download and for the list of the pending tracks behind it.
use mathlib.Core.List.{Mem}
use audio_streaming_service.Common.{
  ℕ, ◌≡◌, refl, sym, ap, ◌∙◌, List, [], ◌∷◌, length, some, Bytes, codes, All, ok, ℤ, inl, inr,
  bytes_eq,
}
use audio_streaming_service.Events.{Message}
use audio_streaming_service.Handlers.{
  Request, Response, Body, Packages, TrackListItem, upload_body, download_body, json_response,
  first_value, or_empty,
}
use audio_streaming_service.Handlers.Download.{new_download_handler, download}
use audio_streaming_service.Handlers.Download.Answers.{track_id_raw}
use audio_streaming_service.Handlers.Reads.{ReadsWork, IsSigned, download-found, tracks-listed}
use audio_streaming_service.Handlers.Tracks.{list_item, list_response, tracks}
use audio_streaming_service.Handlers.Upload.{UploadHandler, Upload, upload}
use audio_streaming_service.Handlers.Upload.Calls.{stored_content}
use audio_streaming_service.Handlers.Upload.Checks.{IsChecked}
use audio_streaming_service.Handlers.Upload.Commit.{pending_track}
use audio_streaming_service.Handlers.Upload.Saga.{IsChecked-audio, upload-IsCommitted}
use audio_streaming_service.Repository.{Track}
use audio_streaming_service.Repository.Tables.{inserted, valid_uuid, select_by_id}
use audio_streaming_service.Repository.Tables.Rows.{select_by_id-inserted, Mem-with_status}
use audio_streaming_service.Services.{
  Observed, is_at_refl, Untouched, RandOutcome, IsStorage, IsDatabase, IsPublisher,
}
use audio_streaming_service.Std.Path.Elements.{IsElement}
use audio_streaming_service.Std.Strings.{trim_space}
use audio_streaming_service.Std.Strings.Laws.{IsOneOf}
use audio_streaming_service.TrackStorage.Keys.{audio_extensions}
use audio_streaming_service.TrackStorage.Keys.OriginalKeys.{layout, extension_of}
use audio_streaming_service.TrackStorage.Keys.Segments.{IsSegment}

-- The id that the body of an accepted upload gives
abbrev pub track_id_of : Body → Bytes
track_id_of (upload_body b) = b.track_id
track_id_of _ = []

-- The text of a row's id is one element of a path, and is read back as that id.
abbrev pub IsReadBack : {W : Type 0} → Packages W → Track → Type 0
IsReadBack pkg t =
    IsElement (pkg.uuid_string t.id) × (pkg.uuid_scan (pkg.uuid_string t.id) ≡ ok t.id)

module _ {W : Type 0} (o : Observed W) (pkg : Packages W) (h : UploadHandler W) where
  -- The object of an upload, the answer to the upload, that to a request for the download, and that
  -- to a request for the list
  pub record IsPlayable (u : Upload) (v : W) (posted got listed : Response) : Type 0 where
    pub track_id : Bytes
    pub uploaded_at : Bytes
    pub key : Bytes
    pub url : Bytes
    pub items : List TrackListItem
    pub answered :
        posted
        ≡ json_response 201 (
            upload_body (record {
              track_id = track_id;
              artist = u.artist;
              title = u.title;
              original_filename = u.filename;
              status = codes "pending";
              uploaded_at = uploaded_at;
            }))
    pub stored : o.object v h.tracks.bucket key ≡ some (stored_content u.body u.content_type)
    pub signed : IsSigned o h.tracks key h.cfg.download_url_expires v url
    pub downloaded :
        got
        ≡ json_response 200 (
            download_body
              (record { track_id = track_id; original_filename = u.filename; download_url = url }))
    pub listing : listed ≡ list_response pkg h.queries items
    pub contained :
        Mem
          (record {
            track_id = track_id;
            artist = u.artist;
            title = u.title;
            original_filename = u.filename;
            original_size = length u.body;
            status = codes "pending";
            uploaded_at = uploaded_at;
          })
          items

  module _ (database : IsDatabase o h.queries) (works : ReadsWork h.queries h.tracks) (u : Upload)
      (object_id : Bytes) (named : IsSegment object_id)
      (audio : IsOneOf (extension_of u.filename) audio_extensions) (id : Bytes) (now : ℕ) where
    abbrev key_of_upload : Bytes
    key_of_upload = layout object_id (extension_of u.filename)

    abbrev row : Track
    row = inserted (pending_track u key_of_upload) id now

    module _ (v : W) (ts : List Track) (table : o.tracks v ≡ row ∷ ts) where
      downloads_row :
          (get : Request)
          → track_id_raw get ≡ pkg.uuid_string (valid_uuid id)
          → IsReadBack pkg row
          → (url : Bytes) × IsSigned o h.tracks key_of_upload h.cfg.download_url_expires v url
            × ((download pkg (new_download_handler h.cfg h.queries h.tracks) get v).0
                ≡ json_response 200 (
                    download_body (record {
                      track_id = pkg.uuid_string (valid_uuid id);
                      original_filename = u.filename;
                      download_url = url;
                    })))
      unfolding inserted
      downloads_row get asks (element, scanned) =
          download-found o pkg h.queries h.tracks database works h.cfg get v (valid_uuid id) row
            object_id (extension_of u.filename) named audio refl (rw asks (λ e. element.0.0 e))
            (ap pkg.uuid_scan asks ∙ scanned)
            (ap (select_by_id (valid_uuid id)) table
              ∙ select_by_id-inserted (pending_track u key_of_upload) id now ts)

      lists_row :
          (list : Request)
          → trim_space (or_empty (first_value (codes "status") list.query)) ≡ codes "pending"
          → (items : List TrackListItem) × Mem (list_item pkg h.queries row) items
            × ((tracks pkg h.queries list v).0 ≡ list_response pkg h.queries items)
      unfolding inserted bytes_eq
      lists_row list asks =
          let (ts', there, _, listed) =
            tracks-listed o pkg h.queries h.tracks database works list v row
              (inr (rw asks (λ e. cc), rw asks (inl refl), sym asks))
              (rw table (Mem-with_status row ts)) in
          (_, there, listed)

  module _ (Announces : Bytes → Bytes → ℤ → Message → Type 0)
      (publisher : IsPublisher o Announces h.jobs) (database : IsDatabase o h.queries)
      (storage : IsStorage o h.tracks.client)
      (random : (w : W) → RandOutcome o 16 w (pkg.rand_read 16 w)) (r : Request) (w v : W)
      (accepted : (upload pkg h r w).0.status ≡ 201) (kept : Untouched o (upload pkg h r w).1 v)
      (readable : All (IsReadBack pkg) (o.tracks v)) where
    -- The id of an accepted upload is one element of a path.
    pub track_id-IsElement : IsElement (track_id_of (upload pkg h r w).0.body)
    unfolding inserted
    track_id-IsElement =
        let (u, _, object_id, _, commits) =
          upload-IsCommitted o pkg h Announces publisher database storage random r w accepted in
        let (id, now, message, c) = commits in
        let (back, _) = rw (kept.tracks ∙ c.tracks) at readable in
        rw (ap (λ x. track_id_of x.body) c.response) back.0

    -- What an accepted upload stored is found by its id and listed.
    pub upload-IsPlayable :
        ReadsWork h.queries h.tracks
        → (get list : Request) → track_id_raw get ≡ track_id_of (upload pkg h r w).0.body
        → trim_space (or_empty (first_value (codes "status") list.query)) ≡ codes "pending"
        → (u : Upload) × IsChecked h.cfg r u
          × IsPlayable u v
              (upload pkg h r w).0
              (download pkg (new_download_handler h.cfg h.queries h.tracks) get v).0
              (tracks pkg h.queries list v).0
    unfolding inserted
    upload-IsPlayable works get list gets lists =
        let (u, checked, object_id, named, commits) =
          upload-IsCommitted o pkg h Announces publisher database storage random r w accepted in
        let (id, now, message, c) = commits in
        let audio = IsChecked-audio h.cfg r u checked in
        let table = kept.tracks ∙ c.tracks in
        let (back, _) = rw table at readable in
        let key = layout object_id (extension_of u.filename) in
        let (url, signs, got) =
          downloads_row database works u object_id named audio id now v (o.tracks w) table get
            (gets ∙ ap (λ x. track_id_of x.body) c.response) back in
        let (items, there, listed) =
          lists_row database works u object_id named audio id now v (o.tracks w) table list lists in
        (
          u,
          checked,
          record {
            track_id = pkg.uuid_string (valid_uuid id);
            uploaded_at = _;
            key = key;
            url = url;
            items = items;
            answered = c.response;
            stored =
                kept.objects.at h.tracks.bucket key
                ∙ c.object h.tracks.bucket key
                ∙ rw (is_at_refl h.tracks.bucket key) refl;
            signed = signs;
            downloaded = got;
            listing = listed;
            contained = there;
          },
        )
