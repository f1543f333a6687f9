-- ===== src/Handlers/Upload/Interleaved/Effect.antt =====
-- What a call on behalf of one key leaves as it is.
use mathlib.Core.Path.{subst}
use audio_streaming_service.Common.{
  ℕ, ◌≡◌, ◌≢◌, refl, sym, ◌∙◌, true, false, ◌∷◌, Option, some, Bytes, bytes_eq, bytes_eq_iff,
  Bool-cases, inl, inr, All, All-map, All-map2, arith,
}
use audio_streaming_service.Handlers.Upload.Interleaved.{HasObject, Backed, Unnamed}
use audio_streaming_service.Repository.{Uuid, Track}
use audio_streaming_service.Repository.Queries.{CreateTrackParams}
use audio_streaming_service.Repository.Tables.{inserted, delete_by_id}
use audio_streaming_service.Repository.Tables.Rows.{delete_by_id-All}
use audio_streaming_service.Services.{
  Content, Observed, SameObjects, is_at, is_at_refl, Rewritten, Retabled,
}

pub is_at-ne : (bucket key k : Bytes) → k ≢ key → is_at bucket key bucket k ≡ false
is_at-ne bucket key k n = elim (Bool-cases (is_at bucket key bucket k)) [
  | inl e ↦
      let e' : bytes_eq key k ≡ true = ground arith in absurd (n (sym ((bytes_eq_iff key k).0 e')))
  | inr e ↦ e
]

module _ {W : Type 0} (o : Observed W) (bucket : Bytes) where
  -- Rows are dropped, or added with the key, and no other key's object is changed.
  pub record IsLocal (key : Bytes) (w w' : W) : Type 1 where
    pub rows :
        (P : Track → Type 0)
        → ((t : Track) → t.original_object_key ≡ key → P t)
        → All P (o.tracks w)
        → All P (o.tracks w')
    pub objects : (k : Bytes) → k ≢ key → o.object w' bucket k ≡ o.object w bucket k

  pub same-IsLocal :
      (key : Bytes) {w w' : W} → o.tracks w' ≡ o.tracks w → SameObjects o w w' → IsLocal key w w'
  same-IsLocal key same objects = record {
    rows = λ P named ps. subst (All P) (sym same) ps;
    objects = λ k n. objects.at bucket k;
  }

  pub Rewritten-IsLocal :
      {key : Bytes} {c : Option Content} {w w' : W}
      → Rewritten o bucket key c w w'
      → IsLocal key w w'
  Rewritten-IsLocal {key} r = record {
    rows = λ P named ps. subst (All P) (sym r.tracks) ps;
    objects = λ k n. r.at bucket k ∙ rw (is_at-ne bucket key k n) refl;
  }

  pub Rewritten-HasObject :
      {key : Bytes} {c : Content} {w w' : W}
      → Rewritten o bucket key (some c) w w'
      → HasObject o bucket key w'
  Rewritten-HasObject {key} {c} put = rw (put.at bucket key) (rw (is_at_refl bucket key) (λ e. cc))

  pub inserted-IsLocal :
      (p : CreateTrackParams) (id : Bytes) (now : ℕ) {w w' : W}
      → Retabled o (inserted p id now ∷ o.tracks w) w w'
      → IsLocal p.original_object_key w w'
  unfolding inserted
  inserted-IsLocal p id now table = record {
    rows = λ P named ps. subst (All P) (sym table.tracks) (named (inserted p id now) refl, ps);
    objects = λ k n. table.objects.at bucket k;
  }

  pub deleted-IsLocal :
      (key : Bytes) (id : Uuid) {w w' : W}
      → Retabled o (delete_by_id id (o.tracks w)) w w'
      → IsLocal key w w'
  deleted-IsLocal key id {w} table = record {
    rows = λ P named ps. subst (All P) (sym table.tracks) (delete_by_id-All P id (o.tracks w) ps);
    objects = λ k n. table.objects.at bucket k;
  }

  Backed-others :
      {key : Bytes} {w w' : W}
      → IsLocal key w w'
      → Backed o bucket w
      → All
          (λ t. t.original_object_key ≢ key → HasObject o bucket t.original_object_key w')
          (o.tracks w')
  Backed-others {key} {w} {w'} local backed =
      local.rows (λ t. t.original_object_key ≢ key → HasObject o bucket t.original_object_key w')
        (λ t e n. absurd (n e))
        (All-map (λ t has n. rw (local.objects t.original_object_key n) has) (o.tracks w) backed)

  -- Every row keeps its object where the one key has one afterwards,
  pub Backed-kept :
      {key : Bytes} {w w' : W}
      → IsLocal key w w'
      → HasObject o bucket key w'
      → Backed o bucket w
      → Backed o bucket w'
  Backed-kept {key} {w} {w'} local there backed =
      All-map
        (λ t other. elim (Bool-cases (bytes_eq t.original_object_key key)) [
          | inl e ↦ rw ((bytes_eq_iff t.original_object_key key).0 e) there
          | inr e ↦ other (λ same. let e' = (bytes_eq_iff t.original_object_key key).1 same in cc)
        ])
        (o.tracks w') (Backed-others local backed)

  -- if the key is named by no row,
  pub Backed-Unnamed :
      {key : Bytes} {w w' : W}
      → IsLocal key w w'
      → Unnamed o key w'
      → Backed o bucket w
      → Backed o bucket w'
  Backed-Unnamed {key} {w} {w'} local free backed =
      All-map2 (λ t other n. other n) (o.tracks w') (Backed-others local backed) free

  -- or if neither the rows nor the objects are changed.
  pub Backed-same :
      {w w' : W}
      → o.tracks w' ≡ o.tracks w
      → SameObjects o w w'
      → Backed o bucket w
      → Backed o bucket w'
  Backed-same {w} {w'} rows objects backed =
      rw rows
        (All-map (λ t has. rw (objects.at bucket t.original_object_key) has) (o.tracks w) backed)
