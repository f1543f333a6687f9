-- ===== src/Server/Routing.antt =====
-- What is relied on of the router gorilla/mux, which is not part of the repository.
use audio_streaming_service.Common.{
  ℕ, ◌≡◌, ◌≢◌, sym, ap, ◌∙◌, Bool, true, false, ◌||◌, List, [], ◌∷◌, ◌++◌, append-nil, append_assoc,
  Option, none, some, Bytes, codes, bytes_eq, if◌then◌else◌, All,
}
use audio_streaming_service.Handlers.{Request, Response}
use audio_streaming_service.Std.Path.{clean}
use audio_streaming_service.Server.{Route, Mux, register_all, new_mux}

abbrev pub Vars : Type 0
Vars = List (Bytes × Bytes)

abbrev pub is_some {ℓ} : {A : Type ℓ} → Option A → Bool
is_some none = false
is_some (some a) = true

-- The router: which path a pattern matches, and its own answers, 404 and 405, by their status
pub record Router : Type 0 where
  pub match : Bytes → Bytes → Option Vars
  pub plain_answer : ℕ → Response
  pub plain_status : (status : ℕ) → (plain_answer status).status ≡ status

module _ {W : Type 0} (router : Router) where
  -- A route that the path matches is asked for its method.
  abbrev pub dispatch_to : Route W → Request → W → Option Vars → Response × W → Response × W
  dispatch_to x r w none rest = rest
  dispatch_to x r w (some vars) rest =
      if bytes_eq r.method x.method then x.serve_http (record r { vars = vars }) w else rest

  -- The first route that fits serves the request; `seen` tells whether a path has matched.
  unfoldable pub dispatch : Bool → List (Route W) → Request → W → Response × W
  dispatch seen [] r w = (router.plain_answer (if seen then 405 else 404), w)
  dispatch seen (x ∷ xs) r w =
      dispatch_to x r w (router.match x.pattern r.path)
        (dispatch (seen || is_some (router.match x.pattern r.path)) xs r w)

module _ {W R : Type 0} (mux : Mux W R) where
  -- A router serves the routes that have been added to it, in that order, where the path is clean
  -- (others are redirected). A pattern without a
  -- variable matches itself; /download/{track_id} matches one more element, which is not empty.
  pub record IsMux (router : Router) : Type 0 where
    pub routes : R → List (Route W)
    pub fresh : routes mux.new_router ≡ []
    pub added :
        (m : R) (x : Route W)
        → routes (mux.handle m x.pattern x.method x.serve_http) ≡ routes m ++ x ∷ []
    pub serve :
        (m : R) (r : Request) (w : W)
        → clean r.path ≡ r.path
        → mux.serve_http m r w ≡ dispatch router false (routes m) r w
    pub literal :
        (p path : Bytes)
        → All (λ c. (c ≢ b'{') × (c ≢ b'}')) p
        → router.match p path ≡ (if bytes_eq p path then some [] else none)
    pub download :
        (id : Bytes)
        → id ≢ []
        → All (λ c. c ≢ b'/') id
        → router.match (codes "/download/{track_id}") (codes "/download/" ++ id)
          ≡ some ((codes "track_id", id) ∷ [])
    pub download_only :
        (path : Bytes)
        → ((id : Bytes) → path ≢ codes "/download/" ++ id)
        → router.match (codes "/download/{track_id}") path ≡ none

  module _ (router : Router) (laws : IsMux router) where
    routes-register_all :
        (xs : List (Route W)) (m : R) → laws.routes (register_all mux m xs) ≡ laws.routes m ++ xs
    unfolding register_all
    routes-register_all [] m = sym (append-nil _)
    routes-register_all (x ∷ xs) m =
        routes-register_all xs _ ∙ rw (laws.added m x) (append_assoc (laws.routes m) (x ∷ []) xs)

    -- `NewMux` registers the routes that it is given, in their order.
    pub routes-new_mux : (xs : List (Route W)) → laws.routes (new_mux mux xs) ≡ xs
    unfolding new_mux
    routes-new_mux xs = routes-register_all xs mux.new_router ∙ ap (λ l. l ++ xs) laws.fresh
