-- ===== src/Application/Shutdown.antt =====
-- In which order the application is taken down.
use audio_streaming_service.Common.{
  ℕ, Bytes, ◌≡◌, refl, ap, ◌∙◌, List, [], ◌∷◌, ◌++◌, map, true, Bool-cases, ◌⊎◌, inl, inr,
  if◌then◌else◌, All, In, here, there, Result, Exec,
}
use audio_streaming_service.Application.{
  Component, config, s3_storage, track_storage, pool, queries, transcode_publisher, health_handler,
  upload_handler, tracks_handler, download_handler, mux_router, http_server, takes, appends, hooked,
  IsBuildOrder, hook_of,
}
use audio_streaming_service.Config.{Config}
use audio_streaming_service.Events.{TranscodeJobCreated, KafkaPackage}
use audio_streaming_service.Lifecycle.{Hook}
use audio_streaming_service.Repository.Pool.{PoolPackage}
use audio_streaming_service.Repository.Queries.{Dbtx}
use audio_streaming_service.Server.{Mux, NetPackage, server_of, new_http_server}

-- Whatever has been called has its arguments among what has been called.
IsClosed : List Component → Type 0
IsClosed called = (c : Component) → In c called → All (λ d. In d called) (takes c)

All-there :
    (c : Component) (called ds : List Component)
    → All (λ d. In d called) ds
    → All (λ d. In d (c ∷ called)) ds
All-there c called [] _ = tt
All-there c called (d ∷ ds) (i, is) = (there i, All-there c called ds is)

IsClosed-cons :
    (c : Component) (called : List Component)
    → All (λ d. In d called) (takes c)
    → IsClosed called
    → IsClosed (c ∷ called)
unfolding IsClosed
IsClosed-cons c called args closed d here = All-there c called (takes d) args
IsClosed-cons c called args closed d (there i) = All-there c called (takes d) (closed d i)

module _ (called : List Component) (closed : IsClosed called) where
  -- The router needs the upload handler, which needs the queries, the pool and the publisher.
  pool-called : In mux_router called → In pool called
  unfolding IsClosed takes
  pool-called i =
      let upload = (closed mux_router i).1.0 in
      let asked = (closed upload_handler upload).0 in (closed queries asked).0

  publisher-called : In mux_router called → In transcode_publisher called
  unfolding IsClosed takes
  publisher-called i =
      let upload = (closed mux_router i).1.0 in (closed upload_handler upload).1.1.0

appends-cases :
    (c : Component) → appends c ≡ true → (c ≡ pool) ⊎ (c ≡ transcode_publisher) ⊎ (c ≡ http_server)
unfolding appends
appends-cases pool e = inl refl
appends-cases transcode_publisher e = inr (inl refl)
appends-cases http_server e = inr (inr refl)
appends-cases config e = cc
appends-cases s3_storage e = cc
appends-cases track_storage e = cc
appends-cases queries e = cc
appends-cases health_handler e = cc
appends-cases upload_handler e = cc
appends-cases tracks_handler e = cc
appends-cases download_handler e = cc
appends-cases mux_router e = cc

-- Once the three have been called, no hook is appended any more.
hooked_of_called :
    (called cs : List Component)
    → In pool called
    → In transcode_publisher called
    → In http_server called
    → IsBuildOrder called cs
    → hooked cs ≡ []
unfolding hooked
hooked_of_called called [] p t h _ = refl
hooked_of_called called (c ∷ cs) p t h (new, _, rest) = elim (Bool-cases (appends c)) [
  | inl yes_hook ↦ elim (appends-cases c yes_hook) [
    | inl e ↦ absurd (new (rw e p))
    | inr (inl e) ↦ absurd (new (rw e t))
    | inr (inr e) ↦ absurd (new (rw e h))
  ]
  | inr no_hook ↦ rw no_hook (hooked_of_called (c ∷ called) cs (there p) (there t) (there h) rest)
]

abbrev with_hooked : Component → List Component → List Component
with_hooked c earlier = if appends c then c ∷ earlier else earlier

-- A component with a hook that has just been called is among the hooks.
shift :
    (c x : Component) (called earlier : List Component)
    → appends x ≡ true
    → In x (c ∷ called) ⊎ In x earlier
    → In x called ⊎ In x (with_hooked c earlier)
shift c x called earlier a (inl here) = inr (rw a here)
shift c x called earlier a (inl (there i)) = inl i
shift c x called earlier a (inr j) = elim (Bool-cases (appends c)) [
  | inl e ↦ inr (rw e (there j))
  | inr e ↦ inr (rw e j)
]

with_hooked-append :
    (c : Component) (earlier last : List Component)
    → with_hooked c (earlier ++ last) ≡ with_hooked c earlier ++ last
with_hooked-append c earlier last = elim (Bool-cases (appends c)) [
  | inl e ↦ rw e refl
  | inr e ↦ rw e refl
]

-- The hook of the server is the last one, behind those of the pool and the publisher.
abbrev IsLast : List Component → List Component → Type 0
IsLast called hooks =
    (earlier : List Component) × (hooks ≡ earlier ++ http_server ∷ [])
    × (In pool called ⊎ In pool earlier)
    × (In transcode_publisher called ⊎ In transcode_publisher earlier)

hooked-IsLast :
    (called : List Component) {order : List Component}
    → IsClosed called
    → In http_server order
    → IsBuildOrder called order
    → IsLast called (hooked order)
unfolding hooked takes appends
hooked-IsLast called closed (here {xs = cs}) (new, (_, (m, _)), rest) =
    let p = pool-called called closed m in
    let t = publisher-called called closed m in
    (
      [],
      ap (λ l. http_server ∷ l)
          (hooked_of_called (http_server ∷ called) cs (there p) (there t) here rest),
      inl p,
      inl t,
    )
hooked-IsLast called closed (there {y = c} {xs = cs} i) (new, args, rest) =
    let (earlier, e, p, t) =
      hooked-IsLast (c ∷ called) (IsClosed-cons c called args closed) i rest in
    (
      with_hooked c earlier,
      ap (with_hooked c) e ∙ with_hooked-append c earlier (http_server ∷ []),
      shift c pool called earlier refl p,
      shift c transcode_publisher called earlier refl t,
    )

from_outside : {x : Component} {earlier : List Component} → In x [] ⊎ In x earlier → In x earlier
from_outside (inl i) = elim i [ ]
from_outside (inr j) = j

nothing-IsClosed : IsClosed []
unfolding IsClosed
nothing-IsClosed c i = elim i [ ]

module _ {W : Type 0} (hook : Component → Hook W) (stop : List (Hook W) → Exec W (Unit {0}))
    (last_first : (hooks : List (Hook W)) (h : Hook W) (w : W)
      → (stop (hooks ++ h ∷ []) w).1 ≡ (stop hooks (h.on_stop w).1).1) where
  map-append : (xs ys : List Component) → map hook (xs ++ ys) ≡ map hook xs ++ map hook ys
  map-append [] ys = refl
  map-append (x ∷ xs) ys = ap (λ l. hook x ∷ l) (map-append xs ys)

  stop-map :
      (order : List Component)
      → IsBuildOrder [] order
      → In http_server order
      → (earlier : List Component) × In pool earlier
        × In transcode_publisher earlier
        × ((w : W)
            → (stop (map hook (hooked order)) w).1
              ≡ (stop (map hook earlier) ((hook http_server).on_stop w).1).1)
  stop-map order build i =
      let (earlier, e, p, t) = hooked-IsLast [] nothing-IsClosed i build in
      (
        earlier,
        from_outside p,
        from_outside t,
        λ w. rw e (rw (map-append earlier (http_server ∷ [])) (last_first _ _ w)),
      )

module _ {W L R : Type 0} (pools : PoolPackage W) (kafka : KafkaPackage W) (net : NetPackage W L)
    (mux : Mux W R) (unix_nano : W → ℕ) (marshal : TranscodeJobCreated → Result Bytes)
    (cfg : Config) (db : Dbtx W) (router : R) where
  -- In every order in which the constructors can be called up to the server, a lifecycle that stops
  -- its hooks from the last to the first shuts the server down before it closes the pool and the
  -- publisher, whose hooks are both among the ones that remain.
  pub stop-hooked :
      (stop : List (Hook W) → Exec W (Unit {0}))
      → ((hooks : List (Hook W)) (h : Hook W) (w : W)
          → (stop (hooks ++ h ∷ []) w).1 ≡ (stop hooks (h.on_stop w).1).1)
      → (order : List Component) → IsBuildOrder [] order
      → In http_server order
      → (earlier : List Component) × In pool earlier
        × In transcode_publisher earlier
        × ((w : W)
            → (stop
                (map (hook_of pools kafka net mux unix_nano marshal cfg db router) (hooked order))
                w).1
              ≡ (stop
                  (map (hook_of pools kafka net mux unix_nano marshal cfg db router) earlier)
                  (net.shutdown (server_of net mux cfg router) w).1).1)
  unfolding hook_of new_http_server
  stop-hooked stop last_first order build i =
      stop-map (hook_of pools kafka net mux unix_nano marshal cfg db router) stop last_first order
        build i
