-- ===== src/Tests/Routing.antt =====
-- A router in memory, and requests that it hands to the handlers.
use audio_streaming_service.Common.{
  Option-cases, ◌≡◌, ◌≢◌, refl, false, List, [], ◌∷◌, ◌++◌, All, Option, none, some, ok, Bytes,
  codes, bytes_eq, bytes_eq_iff, Bool-cases, ◌⊎◌, inl, inr, arith, if◌then◌else◌, In, here, there,
}
use audio_streaming_service.Handlers.{Response, empty}
use audio_streaming_service.Handlers.Download.{download}
use audio_streaming_service.Handlers.Upload.{UploadHandler}
use audio_streaming_service.Server.{
  Route, Mux, add_headers, cors_headers, new_mux, http_handler, with_cors, health_route,
  upload_route, tracks_route, download_route,
}
use audio_streaming_service.Server.Described.{http_handler-IsDescribed}
use audio_streaming_service.Server.Documented.{Operation, get_download}
use audio_streaming_service.Server.Schemas.{IsDescribed}
use audio_streaming_service.Server.Reading.{http_handler-Untouched}
use audio_streaming_service.Server.Routing.{Vars, Router, dispatch, IsMux}
use audio_streaming_service.Server.Serving.{SameRoutes, app_routes, IsMeant, http_handler-new_mux}
use audio_streaming_service.Services.{Untouched}
use audio_streaming_service.Std.Path.{clean}
use audio_streaming_service.Std.Path.Elements.{IsElement}
use audio_streaming_service.Std.Strings.{after_prefix}
use audio_streaming_service.Tests.Memory.{
  World, observed, memory_db, memory_db-IsDatabase, memory_client-IsStorage,
}
use audio_streaming_service.Tests.Requests.{downloads, download_request, one_song}
use audio_streaming_service.Tests.Setup.{memory_writer, handler_with, packages}

abbrev pub download_pattern : Bytes
download_pattern = codes "/download/{track_id}"

abbrev pub id_vars : Option Bytes → Option Vars
id_vars none = none
id_vars (some id) = some ((codes "track_id", id) ∷ [])

abbrev pub matches : Bytes → Bytes → Option Vars
matches p path =
    if bytes_eq p download_pattern
    then id_vars (after_prefix path (codes "/download/"))
    else if bytes_eq p path
    then some []
    else none

-- The router writes its answers in plain text.
abbrev pub memory_router : Router
memory_router = record {
  match = matches;
  plain_answer = λ status. record {
    status = status;
    headers = (codes "Content-Type", codes "text/plain; charset=utf-8") ∷ [];
    body = empty;
  };
  plain_status = λ status. refl;
}

abbrev pub memory_mux : Mux World (List (Route World))
memory_mux = record {
  new_router = [];
  handle = λ rs pattern method serve.
      rs ++ record { pattern = pattern; method = method; serve_http = serve } ∷ [];
  serve_http = λ rs r w. dispatch memory_router false rs r w;
}

after_prefix-eq-some :
    (s prefix : Bytes) {rest : Bytes} → after_prefix s prefix ≡ some rest → s ≡ prefix ++ rest
unfolding after_prefix
after_prefix-eq-some s [] e = ground arith
after_prefix-eq-some [] (p ∷ prefix) e = cc
after_prefix-eq-some (c ∷ s) (p ∷ prefix) {rest} e =
    ground (arith, after_prefix-eq-some s prefix {rest = rest})

plain-ne-download :
    (p : Bytes) → All (λ c. (c ≢ b'{') × (c ≢ b'}')) p → bytes_eq p download_pattern ≡ false
plain-ne-download p h = elim (Bool-cases (bytes_eq p download_pattern)) [
  | inl e ↦ absurd (braces (rw ((bytes_eq_iff p download_pattern).0 e) at h))
  | inr e ↦ e
]
  where
    braces : ¬ All (λ c. (c ≢ b'{') × (c ≢ b'}')) download_pattern
    braces h = omega (arith, h)

pub memory_mux-IsMux : IsMux memory_mux memory_router
unfolding after_prefix bytes_eq
memory_mux-IsMux = record {
  routes = λ rs. rs;
  fresh = refl;
  added = λ rs x. refl;
  serve = λ rs r w _. refl;
  literal = λ p path plain. rw (plain-ne-download p plain) refl;
  download = λ id _ _. refl;
  download_only = λ path other. elim (Option-cases (after_prefix path (codes "/download/"))) [
    | inl e ↦ rw e refl
    | inr (id, e) ↦ absurd (other id (after_prefix-eq-some path (codes "/download/") e))
  ];
}

abbrev pub uploads : UploadHandler World
uploads = handler_with memory_writer

abbrev provided : List (Route World)
provided = app_routes (packages ok) uploads downloads memory_db

-- The same routes, the other way round
abbrev pub registered : List (Route World)
registered =
    download_route (packages ok) downloads
    ∷ tracks_route (packages ok) memory_db
    ∷ upload_route (packages ok) uploads
    ∷ health_route
    ∷ []

registered-provided : (x : Route World) → In x registered → In x provided
registered-provided x here = there (there (there here))
registered-provided x (there here) = there (there here)
registered-provided x (there (there here)) = there here
registered-provided x (there (there (there here))) = here
registered-provided x (there (there (there (there i)))) = elim i [ ]

provided-registered : (x : Route World) → In x provided → In x registered
provided-registered x here = there (there (there here))
provided-registered x (there here) = there (there here)
provided-registered x (there (there here)) = there here
provided-registered x (there (there (there here))) = here
provided-registered x (there (there (there (there i)))) = elim i [ ]

pub registered-SameRoutes : SameRoutes registered provided
registered-SameRoutes = record { to = registered-provided; from = provided-registered }

http_handler-new_mux_example :
    http_handler memory_mux (new_mux memory_mux registered) download_request one_song
    ≡ with_cors (
        download
          (packages ok)
          downloads
          (record download_request { vars = (codes "track_id", codes "u1") ∷ [] })
          one_song)
http_handler-new_mux_example =
    http_handler-new_mux memory_mux memory_router memory_mux-IsMux (packages ok) uploads downloads
      memory_db registered registered-SameRoutes download_request one_song
      (IsMeant.a_download (codes "u1") ((cc, cc, cc), omega arith) refl refl)

u1-IsElement : IsElement (codes "u1")
u1-IsElement = ((cc, cc, cc), omega arith)

abbrev get_u1 : Operation download_request
get_u1 = get_download (codes "u1") u1-IsElement refl refl

http_handler-IsDescribed_example :
    (x : Response) × IsDescribed get_u1 x
    × ((http_handler memory_mux (new_mux memory_mux registered) download_request one_song).0
        ≡ add_headers cors_headers x)
http_handler-IsDescribed_example =
    http_handler-IsDescribed memory_mux memory_router memory_mux-IsMux (packages ok) uploads
      downloads memory_db registered registered-SameRoutes download_request one_song get_u1

download_request-clean : clean download_request.path ≡ download_request.path
unfolding clean bytes_eq
download_request-clean = refl

http_handler-Untouched_example :
    Untouched observed one_song
      (http_handler memory_mux (new_mux memory_mux registered) download_request one_song).1
    ⊎ ((download_request.method ≡ codes "POST") × (download_request.path ≡ codes "/upload"))
http_handler-Untouched_example =
    http_handler-Untouched observed memory_mux memory_router memory_mux-IsMux (packages ok) uploads
      downloads registered registered-SameRoutes memory_client-IsStorage memory_db-IsDatabase
      download_request one_song download_request-clean
