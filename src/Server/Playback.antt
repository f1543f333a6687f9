-- ===== src/Server/Playback.antt =====
-- An upload, and the requests for its download and for the list behind it, at the server.
use audio_streaming_service.Common.{
  ◌≡◌, refl, ap, ◌∙◌, List, [], ◌∷◌, ◌++◌, Bytes, codes, bytes_eq, All, ℤ,
}
use audio_streaming_service.Events.{Message}
use audio_streaming_service.Handlers.{Request, Response, Packages, first_value, or_empty}
use audio_streaming_service.Handlers.Download.{new_download_handler}
use audio_streaming_service.Handlers.Playback.{
  track_id_of, IsReadBack, IsPlayable, track_id-IsElement, upload-IsPlayable,
}
use audio_streaming_service.Handlers.Reads.{ReadsWork}
use audio_streaming_service.Handlers.Upload.{UploadHandler, Upload, upload}
use audio_streaming_service.Handlers.Upload.Checks.{IsChecked}
use audio_streaming_service.Server.{
  Mux, Route, new_mux, http_handler, with_cors, add_headers, cors_headers,
}
use audio_streaming_service.Server.Routing.{Router, IsMux}
use audio_streaming_service.Server.Serving.{SameRoutes, app_routes, IsMeant, http_handler-new_mux}
use audio_streaming_service.Services.{
  Observed, Untouched, RandOutcome, IsStorage, IsDatabase, IsPublisher,
}
use audio_streaming_service.Std.Strings.{trim_space}

module _ {W R : Type 0} (o : Observed W) (mux : Mux W R) (router : Router) (laws : IsMux mux router)
    (pkg : Packages W) (h : UploadHandler W) (rs : List (Route W))
    (same : SameRoutes rs
      (app_routes pkg h (new_download_handler h.cfg h.queries h.tracks) h.queries))
    (Announces : Bytes → Bytes → ℤ → Message → Type 0) (publisher : IsPublisher o Announces h.jobs)
    (database : IsDatabase o h.queries) (storage : IsStorage o h.tracks.client)
    (random : (w : W) → RandOutcome o 16 w (pkg.rand_read 16 w))
    (works : ReadsWork h.queries h.tracks) where
  abbrev serve : Request → W → Response × W
  serve = http_handler mux (new_mux mux rs)

  abbrev meant :
      (r : Request) (w : W) {q : Response × W}
      → IsMeant mux router laws pkg h
          (new_download_handler h.cfg h.queries h.tracks)
          h.queries
          r
          w
          q
      → serve r w ≡ with_cors q
  meant =
      http_handler-new_mux mux router laws pkg h (new_download_handler h.cfg h.queries h.tracks)
        h.queries rs same

  -- Three answers of the server, without the CORS headers, are those of an upload that is playable.
  pub record AreOfPlayable (post : Request) (v : W) (posted got listed : Response) : Type 0 where
    pub file : Upload
    pub checked : IsChecked h.cfg (record post { vars = [] }) file
    pub answer : Response
    pub download_answer : Response
    pub list_answer : Response
    pub posted_as : posted ≡ add_headers cors_headers answer
    pub got_as : got ≡ add_headers cors_headers download_answer
    pub listed_as : listed ≡ add_headers cors_headers list_answer
    pub playable : IsPlayable o pkg h file v answer download_answer list_answer

  -- Where the services and the router keep their laws and no call that reads fails: when POST
  -- /upload was answered 201, and nothing has changed since, GET /download/{track_id} with the id
  -- of that answer is answered 200 with that id, the name of the uploaded file, and a URL that is
  -- signed for the key under which the bucket holds the uploaded bytes; and GET /tracks of the
  -- pending tracks is answered 200 with a list that has the track, as the upload described it,
  -- among its items. The ids of the table have texts that are one element of a path and are read
  -- back.
  pub http_handler-AreOfPlayable :
      (post get list : Request) (w v : W)
      → post.method ≡ codes "POST"
      → post.path ≡ codes "/upload"
      → (serve post w).0.status ≡ 201
      → Untouched o (serve post w).1 v
      → All (IsReadBack pkg) (o.tracks v)
      → get.method ≡ codes "GET"
      → get.path ≡ codes "/download/" ++ track_id_of (serve post w).0.body
      → list.method ≡ codes "GET"
      → list.path ≡ codes "/tracks"
      → trim_space (or_empty (first_value (codes "status") list.query)) ≡ codes "pending"
      → AreOfPlayable post v (serve post w).0 (serve get v).0 (serve list v).0
  unfolding bytes_eq
  http_handler-AreOfPlayable post get list w v posts at_upload accepted kept readable gets at_id
        lists at_tracks pending =
      let served = meant post w (IsMeant.an_upload posts at_upload) in
      let accepted' = rw served at accepted in
      let kept' = rw served at kept in
      let path = at_id ∙ ap (λ q. codes "/download/" ++ track_id_of q.0.body) served in
      let r = record post { vars = [] } in
      let id = track_id_of (upload pkg h r w).0.body in
      let element =
        track_id-IsElement o pkg h Announces publisher database storage random r w v accepted' kept'
          readable in
      let (file, checked, playable) =
        upload-IsPlayable o pkg h Announces publisher database storage random r w v accepted' kept'
          readable works (record get { vars = (codes "track_id", id) ∷ [] })
          (record list { vars = [] }) refl pending in
      record {
        file = file;
        checked = checked;
        answer = _;
        download_answer = _;
        list_answer = _;
        posted_as = ap (λ q. q.0) served;
        got_as = ap (λ q. q.0) (meant get v (IsMeant.a_download id element gets path));
        listed_as = ap (λ q. q.0) (meant list v (IsMeant.a_list lists at_tracks));
        playable = playable;
      }
