-- ===== src/TrackStorage/Objects.antt =====
-- An original that is stored is found again: by `Get`, and by `PresignOriginalDownload`.
use audio_streaming_service.Common.{
  ℕ, ◌≡◌, refl, ap, ◌∙◌, true, some, Bytes, bytes_eq_iff, length, ◌⊎◌, inl, inr, Error, Result, ok,
  err, arith, Result-cases,
}
use audio_streaming_service.Config.{UrlPackage}
use audio_streaming_service.Services.{Content, Observed, is_at, PutOutcome, IsStorage}
use audio_streaming_service.Std.Strings.{trim_prefix}
use audio_streaming_service.Std.Strings.Laws.{IsOneOf}
use audio_streaming_service.Storage.{
  S3Client, S3Storage, put_object, get_object, read_body, public_object_url, presign_get_url,
}
use audio_streaming_service.TrackStorage.{
  StoredObject, or_octet_stream, stored_object, put_under, put_original, get, keyed,
  presign_original_download,
}
use audio_streaming_service.TrackStorage.Keys.{audio_extensions, original_key}
use audio_streaming_service.TrackStorage.Keys.KeyChecks.{validate_key-layout, trim_prefix-layout}
use audio_streaming_service.TrackStorage.Keys.OriginalKeys.{
  layout, extension_of, original_key-layout,
}
use audio_streaming_service.TrackStorage.Keys.Segments.{IsSegment}

module _ {W : Type 0} (o : Observed W) where
  -- The answer of GetObject for an object that is there, read to the end: its content, unless the
  -- call or the reading fails
  pub data FetchOutcome (c : Content) : Result (Result Bytes) × W → Type 0 where
    failed : {e : Error} {w' : W} → FetchOutcome c (err e, w')
    cut : {e : Error} {w' : W} → FetchOutcome c (ok (err e), w')
    fetched : {w' : W} → FetchOutcome c (ok (ok c.body), w')

  pub record IsReadable (client : S3Client W) : Type 0 where
    pub fetch :
        (b k : Bytes) (c : Content) (w : W)
        → o.object w b k ≡ some c
        → FetchOutcome c (client.get_object b k w)

  -- The bytes are read, or an error that the storage reported in its answer `asked`.
  abbrev pub IsRead : Bytes → Result (Result Bytes) × W → Result Bytes × W → Type 0
  IsRead body asked q =
      (q.0 ≡ ok body) ⊎ ((e : Error) × (q.0 ≡ err e) × ((asked.0 ≡ err e) ⊎ (asked.0 ≡ ok (err e))))

  read_body-IsRead :
      (c : Content) {q : Result (Result Bytes) × W}
      → FetchOutcome c q
      → IsRead c.body q (read_body q)
  read_body-IsRead c (FetchOutcome.failed {e = e}) = inr (e, refl, inl refl)
  read_body-IsRead c (FetchOutcome.cut {e = e}) = inr (e, refl, inr refl)
  read_body-IsRead c FetchOutcome.fetched = inl refl

  is_at_refl : (b k : Bytes) → is_at b k b k ≡ true
  is_at_refl b k = ground (arith, bytes_eq_iff b b, bytes_eq_iff k k)

  module _ (urls : UrlPackage) (s : S3Storage W) where
    -- What a stored object says, and where it is
    record IsPlaced (key body content_type : Bytes) (stored : StoredObject) (w' : W) : Type 0 where
      pub key_eq : stored.key ≡ key
      pub size_eq : stored.size ≡ length body
      pub content :
          o.object w' s.bucket key ≡ some (record { body = body; content_type = content_type })

    stored_object-IsPlaced :
        (key body content_type : Bytes) (w w' : W) (stored : StoredObject)
        {q : Result (Unit {0}) × W}
        → PutOutcome o
            (record {
              bucket = s.bucket;
              key = key;
              body = body;
              content_length = length body;
              content_type = content_type;
            })
            w
            q
        → stored_object urls s key body q ≡ (ok stored, w')
        → IsPlaced key body content_type stored w'
    stored_object-IsPlaced key body content_type w w' stored (PutOutcome.failed same) h =
        let e = ap (λ p. p.0) h in cc
    stored_object-IsPlaced key body content_type w w' stored (PutOutcome.done {w' = w1} put) h =
        elim (Result-cases (public_object_url urls (some s) key)) [
          | inl (url, built) ↦
              let h' = rw built at h in
              let e = ap (λ p. p.0) h' in
              let there = put.at s.bucket key in
              record {
                key_eq = cc;
                size_eq = cc;
                content = rw (← ap (λ p. p.1) h') (there ∙ rw (is_at_refl s.bucket key) refl);
              }
          | inr (x, refused) ↦ let e = ap (λ p. p.0) (rw refused at h) in cc
        ]

    module _ (track_id filename body content_type : Bytes) (w w' : W) (stored : StoredObject)
        (done : put_original urls s track_id filename body content_type w ≡ (ok stored, w')) where
      put_original-key :
          (key : Bytes) × (original_key track_id filename ≡ ok key)
          × (put_under urls s body content_type (ok key) w ≡ (ok stored, w'))
      unfolding put_original
      put_original-key = elim (Result-cases (original_key track_id filename)) [
        | inl (key, named) ↦ (key, named, rw named at done)
        | inr (x, refused) ↦ let e = ap (λ p. p.0) (rw refused at done) in cc
      ]

      module _ (storage : IsStorage o s.client) where
        put_object-PutOutcome :
            (segment : Bytes)
            → PutOutcome o
                (record {
                  bucket = s.bucket;
                  key = layout segment (extension_of filename);
                  body = body;
                  content_length = length body;
                  content_type = or_octet_stream content_type;
                })
                w
                (put_object s
                  (layout segment (extension_of filename))
                  body
                  (length body)
                  (or_octet_stream content_type)
                  w)
        unfolding put_object trim_prefix
        put_object-PutOutcome segment =
            rw (trim_prefix-layout segment (extension_of filename)) (storage.put _ w)

        put_original-IsPlaced :
            (segment : Bytes) × IsSegment segment
            × IsOneOf (extension_of filename) audio_extensions
            × (original_key track_id filename ≡ ok (layout segment (extension_of filename)))
            × IsPlaced
                (layout segment (extension_of filename))
                body
                (or_octet_stream content_type)
                stored
                w'
        put_original-IsPlaced =
            let (key, named, h) = put_original-key in
            let (segment, _, is_segment, audio, e) =
              original_key-layout track_id filename key named in
            (
              segment,
              is_segment,
              audio,
              named ∙ ap ok e,
              stored_object-IsPlaced _ body (or_octet_stream content_type) w w' stored
                  (put_object-PutOutcome segment) (rw e at h),
            )

        get_of_layout :
            (segment e : Bytes)
            → IsSegment segment
            → IsOneOf e audio_extensions
            → get s (layout segment e) w'
              ≡ read_body (s.client.get_object s.bucket (layout segment e) w')
        unfolding get get_object
        get_of_layout segment e named audio =
            rw (validate_key-layout segment e named audio) (rw (trim_prefix-layout segment e) refl)

        -- Where the object storage keeps its laws, the key that `PutOriginal` returns gives the
        -- stored bytes back with `Get`, or the error that GetObject for that key, or reading what
        -- it answers, reports; and
        -- `PresignOriginalDownload` of the same track id and file name signs that key, always.
        pub get-put_original :
            IsReadable s.client
            → IsRead body (s.client.get_object s.bucket stored.key w') (get s stored.key w')
              × ((expires : ℕ) (v : W)
                  → presign_original_download s track_id filename expires v
                    ≡ keyed s stored.key (presign_get_url s stored.key expires v))
        unfolding presign_original_download
        get-put_original readable =
            let (segment, named, audio, signed, placed) = put_original-IsPlaced in
            (
              rw placed.key_eq (
                  rw (get_of_layout segment (extension_of filename) named audio)
                    (read_body-IsRead _ (readable.fetch _ _ _ w' placed.content))),
              λ expires v. rw placed.key_eq (rw signed refl),
            )
