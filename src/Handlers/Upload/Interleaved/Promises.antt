-- ===== src/Handlers/Upload/Interleaved/Promises.antt =====
-- What a request that is under way relies on, and that the calls of the others leave it.
use audio_streaming_service.Common.{◌≡◌, ◌≢◌, sym, ap, ◌∙◌, true, some, Bytes, All}
use audio_streaming_service.Handlers.Upload.Interleaved.{holder, HasObject, Unnamed}
use audio_streaming_service.Handlers.Upload.Interleaved.Effect.{IsLocal}
use audio_streaming_service.Handlers.Upload.Steps.{
  Progress, arrived, drawing, storing, inserting, publishing, deleting_row, deleting_object,
  answered,
}
use audio_streaming_service.Repository.{Track}
use audio_streaming_service.Repository.Tables.{has_id}
use audio_streaming_service.Services.{Observed, SameObjects}
use audio_streaming_service.Std.Strings.Laws.{IsOneOf}
use audio_streaming_service.TrackStorage.Keys.{audio_extensions}
use audio_streaming_service.TrackStorage.Keys.OriginalKeys.{layout, extension_of}
use audio_streaming_service.TrackStorage.Keys.Segments.{IsSegment}

-- The key of an original
abbrev pub IsKey : Bytes → Type 0
IsKey key =
    (segment : Bytes) × (e : Bytes) × IsSegment segment
    × IsOneOf e audio_extensions
    × (key ≡ layout segment e)

-- Two requests have no key in common.
abbrev pub Apart : Progress → Progress → Type 0
Apart p q = (k : Bytes) → holder p ≡ some k → holder q ≢ some k

-- The row of `t` is the only one that names the key.
abbrev pub OnlyRow : {W : Type 0} → Observed W → Track → Bytes → W → Type 0
OnlyRow o t key w = All (λ u. u.original_object_key ≡ key → has_id t.id u ≡ true) (o.tracks w)

module _ {W : Type 0} (o : Observed W) (bucket : Bytes) where
  abbrev pub Fine : Progress → W → Type 0
  Fine (arrived r) w = Unit
  Fine (drawing u) w = IsOneOf (extension_of u.filename) audio_extensions
  Fine (storing u id) w =
      IsSegment id
      × IsOneOf (extension_of u.filename) audio_extensions
      × Unnamed o (layout id (extension_of u.filename)) w
  Fine (inserting u s) w = IsKey s.key × HasObject o bucket s.key w × Unnamed o s.key w
  Fine (publishing t key) w = IsKey key × HasObject o bucket key w × OnlyRow o t key w
  Fine (deleting_row t key) w = IsKey key × HasObject o bucket key w × OnlyRow o t key w
  Fine (deleting_object x key) w = IsKey key × Unnamed o key w
  Fine (answered x) w = Unit

  module _ {key : Bytes} {w w' : W} (local : IsLocal o bucket key w w') (k : Bytes)
      (n : k ≢ key) where
    HasObject-other : HasObject o bucket k w → HasObject o bucket k w'
    HasObject-other has = rw (local.objects k n) has

    Unnamed-other : Unnamed o k w → Unnamed o k w'
    Unnamed-other free = local.rows (λ t. t.original_object_key ≢ k) (λ t e e'. n (sym e' ∙ e)) free

    OnlyRow-other : (t : Track) → OnlyRow o t k w → OnlyRow o t k w'
    OnlyRow-other t only =
        local.rows (λ u. u.original_object_key ≡ k → has_id t.id u ≡ true)
          (λ u e e'. absurd (n (sym e' ∙ e))) only

  -- A call on behalf of one key leaves what a request with another relies on.
  pub Fine-other :
      {key : Bytes} {w w' : W}
      → IsLocal o bucket key w w'
      → (q : Progress) → holder q ≢ some key
      → Fine q w
      → Fine q w'
  Fine-other local (arrived r) n f = tt
  Fine-other local (drawing u) n f = f
  Fine-other local (storing u id) n (named, audio, free) =
      (named, audio, Unnamed-other local _ (λ e. n (ap some e)) free)
  Fine-other local (inserting u s) n (k, has, free) = (
    k,
    HasObject-other local _ (λ e. n (ap some e)) has,
    Unnamed-other local _ (λ e. n (ap some e)) free,
  )
  Fine-other local (publishing t key) n (k, has, only) = (
    k,
    HasObject-other local _ (λ e. n (ap some e)) has,
    OnlyRow-other local _ (λ e. n (ap some e)) t only,
  )
  Fine-other local (deleting_row t key) n (k, has, only) = (
    k,
    HasObject-other local _ (λ e. n (ap some e)) has,
    OnlyRow-other local _ (λ e. n (ap some e)) t only,
  )
  Fine-other local (deleting_object x key) n (k, free) =
      (k, Unnamed-other local _ (λ e. n (ap some e)) free)
  Fine-other local (answered x) n f = tt

  pub HasObject-same :
      {w w' : W}
      → SameObjects o w w'
      → (k : Bytes) → HasObject o bucket k w
      → HasObject o bucket k w'
  HasObject-same objects k has = rw (objects.at bucket k) has

  module _ {w w' : W} (rows : o.tracks w' ≡ o.tracks w) (objects : SameObjects o w w') where
    -- So does a call without effect on rows and objects.
    pub Fine-same : (q : Progress) → Fine q w → Fine q w'
    Fine-same (arrived r) f = tt
    Fine-same (drawing u) f = f
    Fine-same (storing u id) f = rw rows f
    Fine-same (inserting u s) (k, has, free) = (k, HasObject-same objects s.key has, rw rows free)
    Fine-same (publishing t key) (k, has, only) = (k, HasObject-same objects key has, rw rows only)
    Fine-same (deleting_row t key) (k, has, only) =
        (k, HasObject-same objects key has, rw rows only)
    Fine-same (deleting_object x key) f = rw rows f
    Fine-same (answered x) f = tt
