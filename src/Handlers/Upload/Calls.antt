-- ===== src/Handlers/Upload/Calls.antt =====
-- What the calls of the upload handler do, in terms of what can be observed.
use mathlib.Core.Path.{subst}
use audio_streaming_service.Common.{
  ℕ, ◌≡◌, refl, sym, true, [], ◌∷◌, length, Option, none, some, Bytes, bytes_eq_iff, Bool-cases,
  inl, inr, Error, Result, ok, err, arith, if◌then◌else◌,
}
use audio_streaming_service.Config.{UrlPackage}
use audio_streaming_service.Common.{Result-cases}
use audio_streaming_service.Handlers.{Packages}
use audio_streaming_service.Handlers.Upload.{
  is_supported_audio, supported_extensions, hex_of, new_object_id,
}
use audio_streaming_service.Std.Strings.Laws.{is_one_of_iff}
use audio_streaming_service.Services.{RandOutcome}
use audio_streaming_service.TrackStorage.Keys.OriginalKeys.{encode_to_string-IsSegment}
use audio_streaming_service.Repository.{Track, Uuid}
use audio_streaming_service.Repository.Queries.{
  Row, Dbtx, CreateTrackParams, one, create_track, delete_track_by_id,
}
use audio_streaming_service.Repository.Tables.{inserted, valid_uuid, select_by_id}
use audio_streaming_service.Repository.Tables.Rows.{scan_track-row_of, inserted-IsStored}
use audio_streaming_service.Services.{
  Content, Observed, is_at, Untouched, Rewritten, Retabled, PutOutcome, DeleteRowOutcome,
  InsertOutcome, IsStorage, IsDatabase,
}
use audio_streaming_service.Std.Strings.{trim_prefix}
use audio_streaming_service.Std.Strings.Laws.{IsOneOf}
use audio_streaming_service.Storage.{S3Storage, put_object, delete_object, public_object_url}
use audio_streaming_service.TrackStorage.{
  StoredObject, or_octet_stream, stored_object, put_original, delete,
}
use audio_streaming_service.TrackStorage.Keys.{audio_extensions}
use audio_streaming_service.TrackStorage.Keys.Segments.{IsSegment}
use audio_streaming_service.TrackStorage.Keys.OriginalKeys.{
  layout, extension_of, original_key_of_IsSegment,
}
use audio_streaming_service.TrackStorage.Keys.KeyChecks.{validate_key-layout, trim_prefix-layout}

-- A write under a key, taken back, leaves what was there if that was nothing.
pub restored :
    (bucket key b k : Bytes) (c : Content) (before : Bytes → Bytes → Option Content)
    → before bucket key ≡ none
    → (if is_at bucket key b k then none else if is_at bucket key b k then some c else before b k)
      ≡ before b k
restored bucket key b k c before h = elim (Bool-cases (is_at bucket key b k)) [
  | inl same ↦
      let e : bucket ≡ b = (bytes_eq_iff bucket b).0 (ground arith) in
      let e' : key ≡ k = (bytes_eq_iff key k).0 (ground arith) in rw same (cc (h, e, e'))
  | inr other ↦ rw other refl
]

abbrev pub stored_content : Bytes → Bytes → Content
stored_content body content_type = record {
  body = body;
  content_type = or_octet_stream content_type;
}

-- `PutOriginal` stores the object or not, and may fail behind that to build its public URL.
module _ {W : Type 0} (o : Observed W) (urls : UrlPackage) (s : S3Storage W) (key : Bytes) where
  pub data OriginalOutcome (body content_type : Bytes) (w : W)
      : Result StoredObject × W → Type 0 where
    failed :
        {x : Error} {w' : W} → Untouched o w w' → OriginalOutcome body content_type w (err x, w')
    unlinked :
        {w' : W} (x : Error)
        → public_object_url urls (some s) key ≡ err x
        → Rewritten o s.bucket key (some (stored_content body content_type)) w w'
        → OriginalOutcome body content_type w (err x, w')
    stored :
        {w' : W} (url : Bytes)
        → public_object_url urls (some s) key ≡ ok url
        → Rewritten o s.bucket key (some (stored_content body content_type)) w w'
        → OriginalOutcome body content_type w (
          ok (record { key = key; size = length body; last_modified = none; public_url = url }),
          w',
        )

module _ {W : Type 0} (o : Observed W) where
  pub data CreateOutcome (p : CreateTrackParams) (w : W) : Result Track × W → Type 0 where
    failed : {e : Error} {w' : W} → Untouched o w w' → CreateOutcome p w (err e, w')
    done :
        {w' : W} (id : Bytes) (now : ℕ)
        → select_by_id (valid_uuid id) (o.tracks w) ≡ none
        → Retabled o (inserted p id now ∷ o.tracks w) w w'
        → CreateOutcome p w (ok (inserted p id now), w')

  one-CreateOutcome :
      (p : CreateTrackParams) (w : W) {q : Result Row × W}
      → InsertOutcome o p w q
      → CreateOutcome p w (one q)
  one-CreateOutcome p w (InsertOutcome.failed same) = failed same
  one-CreateOutcome p w (InsertOutcome.done {w' = w'} id now fresh t) =
      let read = scan_track-row_of (inserted p id now) (inserted-IsStored p id now) in
      subst (λ r. CreateOutcome p w (r, w')) (sym read) (done id now fresh t)

  -- `CreateTrack` returns the row that it has inserted, or has no effect.
  pub create_track-CreateOutcome :
      (db : Dbtx W)
      → IsDatabase o db
      → (p : CreateTrackParams) (w : W) → CreateOutcome p w (create_track db p w)
  unfolding create_track
  create_track-CreateOutcome db laws p w = one-CreateOutcome p w (laws.insert p w)

  pub delete-DeleteRowOutcome :
      (db : Dbtx W)
      → IsDatabase o db
      → (id : Uuid) (w : W) → DeleteRowOutcome o id w (delete_track_by_id db id w)
  unfolding delete_track_by_id
  delete-DeleteRowOutcome db laws id w = laws.delete id w

  module _ (urls : UrlPackage) (s : S3Storage W) (laws : IsStorage o s.client) (segment e : Bytes)
      (named : IsSegment segment) (audio : IsOneOf e audio_extensions) where
    -- `Delete` at the key of an original is passed on to the client.
    pub delete-layout :
        (w : W)
        → delete s (layout segment e) w ≡ s.client.delete_object s.bucket (layout segment e) w
    unfolding delete delete_object trim_prefix
    delete-layout w = rw (validate_key-layout segment e named audio) refl

    -- `PutObject` at that key
    pub put_object-layout :
        (body content_type : Bytes) (w : W)
        → PutOutcome o
            (record {
              bucket = s.bucket;
              key = layout segment e;
              body = body;
              content_length = length body;
              content_type = content_type;
            })
            w
            (put_object s (layout segment e) body (length body) content_type w)
    unfolding put_object trim_prefix
    put_object-layout body content_type w = rw (trim_prefix-layout segment e) (laws.put _ w)

    stored_object-OriginalOutcome :
        (body content_type : Bytes) (w : W) {q : Result (Unit {0}) × W}
        → PutOutcome o
            (record {
              bucket = s.bucket;
              key = layout segment e;
              body = body;
              content_length = length body;
              content_type = or_octet_stream content_type;
            })
            w
            q
        → OriginalOutcome o urls s
            (layout segment e)
            body
            content_type
            w
            (stored_object urls s (layout segment e) body q)
    stored_object-OriginalOutcome body content_type w (PutOutcome.failed same) =
        OriginalOutcome.failed same
    stored_object-OriginalOutcome body content_type w (PutOutcome.done r) =
        elim (Result-cases (public_object_url urls (some s) (layout segment e))) [
          | inl (url, built) ↦ rw built (OriginalOutcome.stored url built r)
          | inr (x, refused) ↦ rw refused (OriginalOutcome.unlinked x refused r)
        ]

module _ {W : Type 0} (o : Observed W) (urls : UrlPackage) (s : S3Storage W)
    (laws : IsStorage o s.client) (segment filename : Bytes) (named : IsSegment segment)
    (audio : IsOneOf (extension_of filename) audio_extensions) where
  pub put_original-OriginalOutcome :
      (body content_type : Bytes) (w : W)
      → OriginalOutcome o urls s
          (layout segment (extension_of filename))
          body
          content_type
          w
          (put_original urls s segment filename body content_type w)
  unfolding put_original
  put_original-OriginalOutcome body content_type w =
      rw (original_key_of_IsSegment segment filename named audio) (
        stored_object-OriginalOutcome o urls s laws segment (extension_of filename) named audio body
          content_type w
          (put_object-layout o urls s laws segment (extension_of filename) named audio body
            (or_octet_stream content_type) w))

-- A file that `isSupportedAudio` lets through has an extension that `OriginalKey` accepts.
pub is_supported_audio-IsOneOf :
    (filename : Bytes)
    → is_supported_audio filename ≡ true
    → IsOneOf (extension_of filename) audio_extensions
unfolding is_supported_audio
is_supported_audio-IsOneOf filename h =
    ground (arith, is_one_of_iff (extension_of filename) supported_extensions)

module _ {W : Type 0} (o : Observed W) where
  pub data ObjectIdOutcome (w : W) : Result Bytes × W → Type 0 where
    failed : {x : Error} {w' : W} → Untouched o w w' → ObjectIdOutcome w (err x, w')
    done : {w' : W} (id : Bytes) → IsSegment id → Untouched o w w' → ObjectIdOutcome w (ok id, w')

  hex_of-ObjectIdOutcome :
      (w : W) {q : Result Bytes × W} → RandOutcome o 16 w q → ObjectIdOutcome w (hex_of q)
  hex_of-ObjectIdOutcome w (RandOutcome.failed same) = failed same
  hex_of-ObjectIdOutcome w (RandOutcome.done [] n small same) = absurd (omega arith)
  hex_of-ObjectIdOutcome w (RandOutcome.done (b ∷ bs) n small same) =
      done _ (encode_to_string-IsSegment b bs small) same

  -- `newObjectID` returns a text that can stand in a key.
  pub new_object_id-ObjectIdOutcome :
      (pkg : Packages W)
      → ((w : W) → RandOutcome o 16 w (pkg.rand_read 16 w))
      → (w : W) → ObjectIdOutcome w (new_object_id pkg w)
  unfolding new_object_id
  new_object_id-ObjectIdOutcome pkg random w = hex_of-ObjectIdOutcome w (random w)
