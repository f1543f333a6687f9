-- ===== src/TrackStorage/Listing.antt =====
-- What `ListRaw` lists.
use audio_streaming_service.Common.{
  ℕ, ◌≡◌, refl, ap, ◌≤◌, List, [], ◌∷◌, ◌++◌, map, length, All, some, Bytes, codes, Error, Result,
  ok, err, arith, ℤ, pos, negsuc, >>=-eq-ok, Result-cases, inl, inr, zero, suc,
}
use audio_streaming_service.Config.{UrlPackage}
use audio_streaming_service.Std.Path.{path_join, join}
use audio_streaming_service.Std.Path.Clean.{clean_relative}
use audio_streaming_service.Std.Strings.Laws.{trim_prefix_none}
use audio_streaming_service.Storage.{
  SdkObject, S3Client, S3Storage, list_objects, object_infos, object_info, or_hundred,
  public_object_url,
}
use audio_streaming_service.TrackStorage.{StoredObject, with_urls, listed, list_under, list_raw}
use audio_streaming_service.TrackStorage.Keys.{normalize_segment}
use audio_streaming_service.TrackStorage.Keys.Segments.{
  IsSegment, IsSegment-IsElement, normalize_segment-IsSegment,
}

-- raw/{segment}/
abbrev pub folder : Bytes → Bytes
folder segment = (codes "raw/" ++ segment) ++ codes "/"

path_join-folder :
    (segment : Bytes)
    → IsSegment segment
    → path_join (codes "raw" ∷ segment ∷ []) ++ codes "/" ≡ folder segment
unfolding path_join join
path_join-folder segment s =
    ap (λ p. p ++ codes "/")
      (clean_relative b'r' (codes "aw") (segment ∷ [])
        (((cc, cc, cc), omega arith), (IsSegment-IsElement segment s, tt)))

-- A number of objects that is at most the one asked for, or 100 where that is not positive
abbrev pub IsAtMost : ℕ → ℤ → Type 0
IsAtMost n (negsuc m) = n ≤ 100
IsAtMost n (pos zero) = n ≤ 100
IsAtMost n (pos (suc m)) = n ≤ suc m

abbrev pub IsWithin : ℕ → ℤ → Type 0
IsWithin n (pos m) = n ≤ m
IsWithin n (negsuc m) = ⊥

IsWithin-or_hundred : (n : ℕ) (z : ℤ) → IsWithin n (or_hundred z) → IsAtMost n z
IsWithin-or_hundred n (negsuc m) h = h
IsWithin-or_hundred n (pos zero) h = h
IsWithin-or_hundred n (pos (suc m)) h = h

-- An object that ListObjectsV2 returns: its key is there, and starts with the prefix.
abbrev pub IsUnder : Bytes → SdkObject → Type 0
IsUnder prefix x = (rest : Bytes) × (x.key ≡ some (prefix ++ rest))

module _ {W : Type 0} where
  pub data ListingOutcome (prefix : Bytes) (n : ℤ) : Result (List SdkObject) × W → Type 0 where
    failed : {e : Error} {w' : W} → ListingOutcome prefix n (err e, w')
    found :
        {w' : W} (xs : List SdkObject)
        → All (IsUnder prefix) xs
        → IsWithin (length xs) n
        → ListingOutcome prefix n (ok xs, w')

  pub record IsLister (client : S3Client W) : Type 0 where
    pub list :
        (b prefix : Bytes) (n : ℤ) (w : W)
        → ListingOutcome prefix n (client.list_objects b prefix n w)

  module _ (urls : UrlPackage) (s : S3Storage W) where
    -- Under the prefix, and with its own public URL
    abbrev pub IsItem : Bytes → StoredObject → Type 0
    IsItem prefix x =
        ((rest : Bytes) × (x.key ≡ prefix ++ rest))
        × (public_object_url urls (some s) x.key ≡ ok x.public_url)

    with_urls-IsItem :
        (prefix : Bytes) (xs : List SdkObject) (items : List StoredObject)
        → All (IsUnder prefix) xs
        → with_urls urls s (map object_info xs) ≡ ok items
        → All (IsItem prefix) items × (length items ≡ length xs)
    unfolding with_urls
    with_urls-IsItem prefix [] items _ h = let e : [] ≡ items = cc in rw (← e) (tt, refl)
    with_urls-IsItem prefix (x ∷ xs) items ((rest, k), ks) h =
        let (url, built, h1) =
          >>=-eq-ok (public_object_url urls (some s) (object_info x).key) _ h in
        let (more, read, h2) = >>=-eq-ok (with_urls urls s (map object_info xs)) _ h1 in
        let (same, count) = with_urls-IsItem prefix xs more ks read in
        let e : record {
          key = (object_info x).key;
          size = (object_info x).size;
          last_modified = x.last_modified;
          public_url = url;
        }
              ∷ more
            ≡ items =
          cc in
        rw (← e) ((((rest, rw k refl), built), same), ap suc count)

    listed-IsItem :
        (prefix : Bytes) (n : ℤ) (items : List StoredObject) {q : Result (List SdkObject) × W}
        → ListingOutcome prefix n q
        → (listed urls s (object_infos q)).0 ≡ ok items
        → All (IsItem prefix) items × IsWithin (length items) n
    listed-IsItem prefix n items (ListingOutcome.failed) h = cc
    listed-IsItem prefix n items (ListingOutcome.found xs under few) h =
        let (same, count) = with_urls-IsItem prefix xs items under h in (same, rw count few)

    module _ (lister : IsLister s.client) (track_id : Bytes) (n : ℤ) (w : W)
        (items : List StoredObject) where
      list_under-IsItem :
          (segment : Bytes)
          → IsSegment segment
          → (list_under urls s n (ok segment) w).0 ≡ ok items
          → All (IsItem (folder segment)) items × IsAtMost (length items) n
      unfolding list_objects
      list_under-IsItem segment named h =
          let h' = rw (path_join-folder segment named) at h in
          let h'' =
            rw (trim_prefix_none b'r' (codes "aw/" ++ segment ++ codes "/") (omega arith)) at h' in
          let (same, few) =
            listed-IsItem (folder segment) (or_hundred n) items (lister.list _ _ _ w) h'' in
          (same, IsWithin-or_hundred _ n few)

      -- What `ListRaw` returns without an error are objects whose keys start with raw/{segment}/,
      -- for the normalised track id, each with the public URL of its key, and at most as many as
      -- asked for, or 100 where that number is not positive; provided the storage lists objects
      -- under the prefix it is given, and at most as many as it is asked for.
      pub list_raw-IsItem :
          (list_raw urls s track_id n w).0 ≡ ok items
          → (segment : Bytes) × (normalize_segment track_id ≡ ok segment)
            × All (IsItem (folder segment)) items
            × IsAtMost (length items) n
      unfolding list_raw
      list_raw-IsItem h = elim (Result-cases (normalize_segment track_id)) [
        | inl (segment, normal) ↦
            let (same, few) =
              list_under-IsItem segment (normalize_segment-IsSegment track_id segment normal)
                (rw normal at h) in
            (segment, normal, same, few)
        | inr (x, refused) ↦ let e = rw refused at h in cc
      ]
