-- ===== src/Server/Described.antt =====
-- The answers of the server against the schemas of core-api/openapi.yaml.
use audio_streaming_service.Common.{
  ◌≡◌, refl, List, [], ◌∷◌, Bytes, bytes_eq, Bool-cases, All, inl, inr, map, length,
}
use audio_streaming_service.Handlers.{Request, Response, Packages, TrackListItem, error_body}
use audio_streaming_service.Handlers.Download.{DownloadHandler}
use audio_streaming_service.Handlers.Json.{item_members, members}
use audio_streaming_service.Handlers.Upload.{UploadHandler}
use audio_streaming_service.Repository.Queries.{Dbtx}
use audio_streaming_service.Server.{Mux, Route, new_mux, http_handler, add_headers, cors_headers}
use audio_streaming_service.Server.Conformance.{http_handler-IsDocumented}
use audio_streaming_service.Server.Documented.{
  bad_request, not_found, payload_too_large, unsupported_media_type, internal_server_error, Problem,
  IsProblem, Operation, get_health, post_upload, get_tracks, get_download, IsDocumented,
}
use audio_streaming_service.Server.Routing.{Router, IsMux}
use audio_streaming_service.Server.Schemas.{IsObject, track_schema, IsError, IsRefusal, IsDescribed}
use audio_streaming_service.Server.Serving.{SameRoutes, app_routes}

error-IsError :
    (code message : Bytes)
    → IsError code (members (error_body (record { error = code; message = message })))
error-IsError code message = elim (Bool-cases (bytes_eq message [])) [
  | inl e ↦ rw e (inl refl)
  | inr e ↦ rw e (inr (message, refl))
]

problem-IsRefusal : (ps : List Problem) (x : Response) → IsProblem ps x → IsRefusal ps x
problem-IsRefusal [] x p = absurd p
problem-IsRefusal ((status, code) ∷ ps) x (inl (message, e)) =
    rw e (inl (refl, error-IsError code message))
problem-IsRefusal ((status, code) ∷ ps) x (inr p) = inr (problem-IsRefusal ps x p)

items-IsObject : (items : List TrackListItem) → All (IsObject track_schema) (map item_members items)
items-IsObject [] = tt
items-IsObject (item ∷ items) = (
  (
    refl,
    (_, refl),
    (
      refl,
      (_, refl),
      (
        refl,
        (_, refl),
        (refl, (_, refl), (refl, (_, refl), (refl, (_, refl), (refl, (_, refl), tt)))),
      ),
    ),
  ),
  items-IsObject items,
)

documented-IsDescribed :
    {r : Request} (op : Operation r) (x : Response) → IsDocumented op x → IsDescribed op x
documented-IsDescribed (get_health _ _) x e = rw e (refl, (refl, (_, refl, (_, refl)), tt))
documented-IsDescribed (post_upload _ _) x (inl (b, e)) = rw e (
    inl (
      refl,
      (
        refl,
        (_, refl, (_, refl)),
        (
          refl,
          (_, refl, (_, refl)),
          (
            refl,
            (_, refl, (_, refl)),
            (
              refl,
              (_, refl, (_, refl)),
              (refl, (_, refl, (_, refl)), (refl, (_, refl, (_, refl)), tt)),
            ),
          ),
        ),
      ),
    ))
documented-IsDescribed (post_upload _ _) x (inr p) = inr (
    problem-IsRefusal
      (bad_request ∷ payload_too_large ∷ unsupported_media_type ∷ internal_server_error ∷ []) x p)
documented-IsDescribed (get_tracks _ _) x (inl (items, e)) =
    rw e (inl (refl, (map item_members items, length items, items-IsObject items, refl)))
documented-IsDescribed (get_tracks _ _) x (inr p) =
    inr (problem-IsRefusal (bad_request ∷ internal_server_error ∷ []) x p)
documented-IsDescribed (get_download _ _ _ _) x (inl (b, e)) = rw e (
    inl (
      refl,
      (refl, (_, refl, (_, refl)), (refl, (_, refl, (_, refl)), (refl, (_, refl, (_, refl)), tt))),
    ))
documented-IsDescribed (get_download _ _ _ _) x (inr p) =
    inr (problem-IsRefusal (not_found ∷ bad_request ∷ internal_server_error ∷ []) x p)

module _ {W R : Type 0} (mux : Mux W R) (router : Router) (laws : IsMux mux router)
    (pkg : Packages W) (uploads : UploadHandler W) (downloads : DownloadHandler W)
    (queries : Dbtx W) (rs : List (Route W))
    (same : SameRoutes rs (app_routes pkg uploads downloads queries)) where
  -- With a router that keeps its laws and the four routes in any order, and whatever the database,
  -- the object storage, the broker and the random source do, every request for one of the four
  -- operations is answered with a status that the API description lists for the operation, and a
  -- JSON object with exactly the members that the schema for that status requires, each a string or
  -- an integer as it says; an error has the code that goes with its status, and may have a message.
  -- The CORS headers are added.
  pub http_handler-IsDescribed :
      (r : Request) (w : W) (op : Operation r)
      → (x : Response) × IsDescribed op x
        × ((http_handler mux (new_mux mux rs) r w).0 ≡ add_headers cors_headers x)
  http_handler-IsDescribed r w op =
      let (x, documented, e) =
        http_handler-IsDocumented mux router laws pkg uploads downloads queries rs same r w op in
      (x, documented-IsDescribed op x documented, e)
