-- ===== src/Handlers/Upload/Interleaved.antt =====
-- Uploads that the server handles at the same time, one call of one request at a time.
pub mod Announced
pub mod Bounds
pub mod Effect
pub mod Moves
pub mod Promises
pub mod Owned
pub mod Safety
pub mod Tellings
pub mod Updates
use mathlib.Core.Logic.{ite}
use native.Mathlib.Decide.{ℕ_discrete}
use audio_streaming_service.Common.{ℕ, ◌≡◌, ◌≢◌, Option, none, some, Bytes, All, Result, ok, true}
use audio_streaming_service.Handlers.{Request, Response, Packages}
use audio_streaming_service.Handlers.Upload.{UploadHandler, Upload, new_object_id}
use audio_streaming_service.Handlers.Upload.Steps.{
  Progress, arrived, drawing, storing, inserting, publishing, deleting_row, deleting_object,
  answered, step,
}
use audio_streaming_service.Repository.{Track}
use audio_streaming_service.Repository.Tables.{has_id}
use audio_streaming_service.Services.{Observed}
use audio_streaming_service.Std.Strings.Laws.{IsOneOf}
use audio_streaming_service.TrackStorage.Keys.{audio_extensions}
use audio_streaming_service.TrackStorage.Keys.OriginalKeys.{layout, extension_of}
use audio_streaming_service.TrackStorage.Keys.Segments.{IsSegment}

abbrev pub update {ℓ} : {A : Type ℓ} → (ℕ → A) → ℕ → A → ℕ → A
update f i a j = ite (ℕ_discrete i j) a (f j)

-- The key of the object that a request has stored, or is about to
abbrev pub holder : Progress → Option Bytes
holder (arrived r) = none
holder (drawing u) = none
holder (storing u id) = some (layout id (extension_of u.filename))
holder (inserting u s) = some s.key
holder (publishing t key) = some key
holder (deleting_row t key) = some key
holder (deleting_object x key) = some key
holder (answered x) = none

-- The requests by number, and the world that they share
pub record System (W : Type 0) : Type 0 where
  pub at : ℕ → Progress
  pub world : W

-- No row names the key.
abbrev pub Unnamed : {W : Type 0} → Observed W → Bytes → W → Type 0
Unnamed o key w = All (λ t. t.original_object_key ≢ key) (o.tracks w)

module _ {W : Type 0} (o : Observed W) (bucket : Bytes) where
  abbrev pub HasObject : Bytes → W → Type 0
  HasObject key w = o.object w bucket key ≢ none

  -- Every row of the table has its object in the bucket.
  abbrev pub Backed : W → Type 0
  Backed w = All (λ t. HasObject t.original_object_key w) (o.tracks w)

module _ {W : Type 0} (o : Observed W) (pkg : Packages W) (h : UploadHandler W) where
  -- The next id that `p` draws makes a key that `q` does not hold.
  abbrev pub IsNewFor : Progress → W → Progress → Type 0
  IsNewFor p w q =
      (u : Upload) (id : Bytes)
      → p ≡ drawing u
      → (new_object_id pkg w).0 ≡ ok id
      → holder q ≢ some (layout id (extension_of u.filename))

  -- It makes a key that no row names.
  abbrev pub IsUnused : Progress → W → Type 0
  IsUnused p w =
      (u : Upload) (id : Bytes)
      → p ≡ drawing u
      → (new_object_id pkg w).0 ≡ ok id
      → Unnamed o (layout id (extension_of u.filename)) w

  abbrev pub IsNew : System W → ℕ → Type 0
  IsNew s i = IsUnused (s.at i) s.world × ((j : ℕ) → IsNewFor (s.at i) s.world (s.at j))

  pub data Step : System W → System W → Type 0 where
    -- a number that is free takes a new request
    request :
        (s : System W) (i : ℕ) (x : Response) (r : Request)
        → s.at i ≡ answered x
        → Step s (record s { at = update s.at i (arrived r) })
    -- a request makes its next call
    call :
        (s : System W) (i : ℕ)
        → IsNew s i
        → Step s (record {
          at = update s.at i (step pkg h (s.at i) s.world).0;
          world = (step pkg h (s.at i) s.world).1;
        })

  pub data Reach (s : System W) : System W → Type 0 where
    start : Reach s s
    later : {t u : System W} → Reach s t → Step t u → Reach s u
