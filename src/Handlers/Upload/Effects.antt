-- ===== src/Handlers/Upload/Effects.antt =====
-- Effects of an upload that stay within one key and one new row.
use audio_streaming_service.Common.{◌≡◌, ◌∙◌, false, ◌∷◌, Option, Bytes, ◌⊎◌, inl, Result}
use audio_streaming_service.Repository.{Track}
use audio_streaming_service.Services.{Content, Observed, is_at, Untouched, Rewritten, DeleteOutcome}

module _ {W : Type 0} (o : Observed W) (bucket key : Bytes) where
  -- At most one row more than before, and no object changed but at one key
  pub record IsContained (w w' : W) : Type 0 where
    pub tracks : (o.tracks w' ≡ o.tracks w) ⊎ ((t : Track) × (o.tracks w' ≡ t ∷ o.tracks w))
    pub objects : (b k : Bytes) → is_at bucket key b k ≡ false → o.object w' b k ≡ o.object w b k

  -- The same, and no message sent
  pub record IsSilent (w w' : W) : Type 0 where
    pub contained : IsContained w w'
    pub jobs : o.jobs w' ≡ o.jobs w

  pub Untouched-IsSilent : {w w' : W} → Untouched o w w' → IsSilent w w'
  Untouched-IsSilent same = record {
    contained = record { tracks = inl same.tracks; objects = λ b k n. same.objects.at b k };
    jobs = same.jobs;
  }

  pub IsSilent-Untouched : {u v w : W} → IsSilent u v → Untouched o v w → IsSilent u w
  IsSilent-Untouched s same = record {
    contained = record {
      tracks = rw same.tracks s.contained.tracks;
      objects = λ b k n. same.objects.at b k ∙ s.contained.objects b k n;
    };
    jobs = same.jobs ∙ s.jobs;
  }

  pub IsSilent-Rewritten :
      {c : Option Content} {u v w : W} → IsSilent u v → Rewritten o bucket key c v w → IsSilent u w
  IsSilent-Rewritten s r = record {
    contained = record {
      tracks = rw r.tracks s.contained.tracks;
      objects = λ b k n. r.at b k ∙ (rw n (s.contained.objects b k n));
    };
    jobs = r.jobs ∙ s.jobs;
  }

  pub IsSilent-DeleteOutcome :
      {u v : W} {q : Result (Unit {0}) × W}
      → IsSilent u v
      → DeleteOutcome o bucket key v q
      → IsSilent u q.1
  IsSilent-DeleteOutcome s (DeleteOutcome.failed same) = IsSilent-Untouched s same
  IsSilent-DeleteOutcome s (DeleteOutcome.done r) = IsSilent-Rewritten s r
