-- ===== src/Tests/Sorting.antt =====
-- ORDER BY uploaded_at DESC, by insertion.
use mathlib.Core.List.{Perm}
use mathlib.Core.List.Perm
use audio_streaming_service.Common.{
  ◌<◌, List, [], ◌∷◌, arith, ltb, if◌then◌else◌, All, Bool-cases, inl, inr,
}
use audio_streaming_service.Repository.{Track}
use audio_streaming_service.Services.{NewestFirst}

abbrev NotAfter : Track → Track → Type 0
NotAfter t u = ¬ (t.uploaded_at.time < u.uploaded_at.time)

insert_newest : Track → List Track → List Track
insert_newest t [] = t ∷ []
insert_newest t (u ∷ us) =
    let rest = insert_newest t us in
    if ltb t.uploaded_at.time u.uploaded_at.time then u ∷ rest else t ∷ u ∷ us

pub newest_first : List Track → List Track
newest_first [] = []
newest_first (t ∷ ts) = insert_newest t (newest_first ts)

All-insert_newest :
    (P : Track → Type 0) (t : Track) (ts : List Track) → P t → All P ts → All P (insert_newest t ts)
unfolding insert_newest
All-insert_newest P t [] p _ = (p, tt)
All-insert_newest P t (u ∷ us) p (pu, ps) = ground (arith, All-insert_newest P t us p ps)

NotAfter-trans :
    (s t : Track) (us : List Track) → NotAfter s t → All (NotAfter t) us → All (NotAfter s) us
NotAfter-trans s t [] h _ = tt
NotAfter-trans s t (u ∷ us) h (k, ks) = (ground arith, NotAfter-trans s t us h ks)

insert_newest-NewestFirst :
    (t : Track) (ts : List Track) → NewestFirst ts → NewestFirst (insert_newest t ts)
unfolding insert_newest
insert_newest-NewestFirst t [] _ = (tt, tt)
insert_newest-NewestFirst t (u ∷ us) (h, hs) =
    elim (Bool-cases (ltb t.uploaded_at.time u.uploaded_at.time)) [
      | inl later ↦
          rw later (
            All-insert_newest (NotAfter u) t us (ground arith) h,
            insert_newest-NewestFirst t us hs,
          )
      | inr sooner ↦
          let k : NotAfter t u = ground arith in rw sooner ((k, NotAfter-trans t u us k h), (h, hs))
    ]

pub newest_first-NewestFirst : (ts : List Track) → NewestFirst (newest_first ts)
unfolding newest_first
newest_first-NewestFirst [] = tt
newest_first-NewestFirst (t ∷ ts) =
    insert_newest-NewestFirst t (newest_first ts) (newest_first-NewestFirst ts)

insert_newest-perm : (t : Track) (ts : List Track) → Perm (insert_newest t ts) (t ∷ ts)
unfolding insert_newest
insert_newest-perm t [] = Perm.refl _
insert_newest-perm t (u ∷ us) = elim (Bool-cases (ltb t.uploaded_at.time u.uploaded_at.time)) [
  | inl later ↦ rw later (Perm.trans (Perm.cons u (insert_newest-perm t us)) (Perm.swap _ _ _))
  | inr sooner ↦ rw sooner (Perm.refl _)
]

pub newest_first-perm : (ts : List Track) → Perm (newest_first ts) ts
unfolding newest_first
newest_first-perm [] = Perm.refl _
newest_first-perm (t ∷ ts) =
    Perm.trans (insert_newest-perm t (newest_first ts)) (Perm.cons t (newest_first-perm ts))

pub All-newest_first : (P : Track → Type 0) (ts : List Track) → All P ts → All P (newest_first ts)
unfolding newest_first
All-newest_first P [] _ = tt
All-newest_first P (t ∷ ts) (p, ps) =
    All-insert_newest P t (newest_first ts) p (All-newest_first P ts ps)
