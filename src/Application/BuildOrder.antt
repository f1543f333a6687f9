-- ===== src/Application/BuildOrder.antt =====
-- The orders in which the values are made are the build orders.
use audio_streaming_service.Application.{Component, takes, IsBuildOrder}
use audio_streaming_service.Application.Build.{Value, component_of, Libraries, Makes, Built}
use audio_streaming_service.Common.{
  ◌≢◌, refl, List, [], ◌∷◌, ◌++◌, map, reverse, append_assoc, append-nil, All, In, here, there,
}
use audio_streaming_service.Config.Environment.{Environment}
use mathlib.Core.List.{reverse-cons}

module _ {W L R A : Type 0} (lib : Libraries W L R A) (env : Environment) where
  abbrev pub components : List (Value W R) → List Component
  components = map component_of

  called :
      {v : Value W R} {made : List (Value W R)} → In v made → In (component_of v) (components made)
  called here = here
  called (there i) = there (called i)

  -- What a constructor needs has been made.
  takes-called :
      {made : List (Value W R)} {v : Value W R}
      → Makes lib env made v
      → All (λ d. In d (components made)) (takes (component_of v))
  unfolding takes
  takes-called (Makes.calls_new_config c e) = tt
  takes-called (Makes.calls_new_s3_storage c s w i e) = (called i, tt)
  takes-called (Makes.calls_new_track_storage s i) = (called i, tt)
  takes-called (Makes.calls_new_pool c db hook w i e) = (called i, tt)
  takes-called (Makes.calls_new_queries db i) = (called i, tt)
  takes-called (Makes.calls_new_transcode_publisher c p i e) = (called i, tt)
  takes-called (Makes.calls_new_health_handler r e) = tt
  takes-called (Makes.calls_new_upload_handler c q s p r i j k l e) =
      (called j, (called k, (called l, (called i, tt))))
  takes-called (Makes.calls_new_tracks_handler q r i e) = (called i, tt)
  takes-called (Makes.calls_new_download_handler c q s r i j k e) =
      (called j, (called k, (called i, tt)))
  takes-called (Makes.calls_new_mux h u t d rs r i j k l same e) =
      (called i, (called j, (called k, (called l, tt))))
  takes-called (Makes.calls_new_http_server c r s i j e) = (called i, (called j, tt))

  not-called :
      (c : Component) (made : List (Value W R))
      → All (λ u. component_of u ≢ c) made
      → ¬ In c (components made)
  not-called c [] _ i = elim i [ ]
  not-called c (u ∷ made) (n, ns) here = n refl
  not-called c (u ∷ made) (n, ns) (there i) = not-called c made ns i

  Built-prefix :
      {made : List (Value W R)}
      → Built lib env made
      → (cs : List Component) → IsBuildOrder (components made) cs
      → IsBuildOrder [] (reverse (components made) ++ cs)
  Built-prefix Built.none_yet cs order = order
  Built-prefix (Built.made_next {v = v} {made = made} before m fresh) cs order =
      let further =
        Built-prefix before (component_of v ∷ cs)
          (not-called (component_of v) made fresh, takes-called m, order) in
      rw (reverse-cons)
        (rw (append_assoc (reverse (components made)) (component_of v ∷ []) cs) further)

  pub Built-IsBuildOrder :
      {made : List (Value W R)} → Built lib env made → IsBuildOrder [] (reverse (components made))
  Built-IsBuildOrder {made} built =
      rw (append-nil (reverse (components made))) at (Built-prefix {made = made} built [] tt)
