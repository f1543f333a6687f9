-- ===== src/Tests/Memory.antt =====
-- A database, an object storage, a broker and a random source in memory.
use mathlib.Core.Option.{some-injective}
use mathlib.Core.Path.{subst}
use audio_streaming_service.Common.{
  ℕ, zero, suc, ◌+◌, ◌<◌, ◌≡◌, refl, sym, ap, Bool, true, false, List, [], ◌∷◌, ◌++◌, map, length,
  Option, none, some, Bytes, codes, bytes_eq_iff, no_rows, service, Result, ok, err, Exec, arith,
  All, if◌then◌else◌, Bool-cases, inl, inr,
}
use audio_streaming_service.Events.{Message}
use audio_streaming_service.Repository.{
  Uuid, Track, Value, uuid, text, int8, TrackStatus, track_status_ready,
}
use audio_streaming_service.Repository.Queries.{
  Statement, create_track_sql, delete_track_by_id_sql, get_track_by_id_sql,
  list_tracks_by_status_sql, list_tracks_sql, list_ready_tracks_sql, Row, Rows, Dbtx,
  CreateTrackParams, id_arg,
}
use audio_streaming_service.Repository.Tables.{
  inserted, valid_uuid, has_id, select_by_id, delete_by_id, with_status,
}
use audio_streaming_service.Repository.Tables.Rows.{
  delete_by_id-All, row_of, IsStored, inserted-IsStored,
}
use audio_streaming_service.Services.{
  Content, Observed, is_at, Untouched-refl, PutOutcome, DeleteOutcome, InsertOutcome,
  DeleteRowOutcome, SelectOutcome, ListOutcome, IsStorage, IsDatabase,
}
use audio_streaming_service.Storage.{S3Client}
use audio_streaming_service.Tests.Sorting.{
  newest_first, newest_first-NewestFirst, newest_first-perm, All-newest_first,
}

pub record World : Type 0 where
  pub table : List Track
  pub stored : All IsStored table
  pub bucket : Bytes → Bytes → Option Content
  pub topic : List Message
  -- the clock
  pub now : ℕ

abbrev pub observed : Observed World
observed = record { tracks = λ w. w.table; object = λ w. w.bucket; jobs = λ w. w.topic }

abbrev pub empty_world : World
empty_world = record { table = []; stored = tt; bucket = λ b k. none; topic = []; now = 7 }

abbrev pub read_content : Option Content → Result (Result Bytes)
read_content none = err service
read_content (some c) = ok (ok c.body)

abbrev pub memory_client : S3Client World
memory_client = record {
  put_object = λ i w. (
    ok tt,
    record w {
      bucket = λ b k.
          if is_at i.bucket i.key b k
          then some (record { body = i.body; content_type = i.content_type })
          else w.bucket b k;
    },
  );
  head_object = λ b k w. (ok tt, w);
  get_object = λ b k w. (read_content (w.bucket b k), w);
  list_objects = λ b p n w. (ok [], w);
  delete_object = λ b k w.
      (ok tt, record w { bucket = λ b' k'. if is_at b k b' k' then none else w.bucket b' k' });
  presign_get_object = λ b k expires w. (ok (codes "https://signed/" ++ k), w);
  presign_put_object = λ b k content_type expires w. (ok (codes "https://signed/" ++ k), w);
}

pub memory_client-IsStorage : IsStorage observed memory_client
memory_client-IsStorage = record {
  put = λ i w. PutOutcome.done (record { tracks = refl; at = λ b k. refl; jobs = refl });
  delete = λ b k w. DeleteOutcome.done (record { tracks = refl; at = λ b' k'. refl; jobs = refl });
  presign_get = λ b k expires w. Untouched-refl observed w;
}

pub with_status-All :
    (P : Track → Type 0) (s : TrackStatus) (ts : List Track) → All P ts → All P (with_status s ts)
unfolding with_status
with_status-All P s [] _ = tt
with_status-All P s (t ∷ ts) (p, ps) = ground (arith, with_status-All P s ts ps)

pub select_by_id-All :
    (P : Track → Type 0) (id : Uuid) (ts : List Track) {t : Track}
    → All P ts
    → select_by_id id ts ≡ some t
    → P t
unfolding select_by_id
select_by_id-All P id [] _ e = cc
select_by_id-All P id (u ∷ us) {t} (p, ps) e = elim (Bool-cases (has_id id u)) [
  | inl here ↦ subst P (some-injective u t (rw here at e)) p
  | inr there ↦ select_by_id-All P id us ps (rw there at e)
]

abbrev pub random_bytes : ℕ → Bytes
random_bytes zero = []
random_bytes (suc n) = 0x5a ∷ random_bytes n

pub length-random_bytes : (n : ℕ) → length (random_bytes n) ≡ n
length-random_bytes zero = refl
length-random_bytes (suc n) = ap (λ m. suc m) (length-random_bytes n)

pub All-random_bytes : (n : ℕ) → All (λ b. b < 256) (random_bytes n)
All-random_bytes zero = tt
All-random_bytes (suc n) = (omega arith, All-random_bytes n)

-- Longer than every id of the table
abbrev pub total : List Track → ℕ
total [] = 0
total (t ∷ ts) = length t.id.bytes + total ts

abbrev pub new_id : World → Bytes
new_id w = random_bytes (suc (total w.table))

select_by_id_longer :
    (b : Bytes) (ts : List Track) → total ts < length b → select_by_id (valid_uuid b) ts ≡ none
unfolding select_by_id
select_by_id_longer b [] h = refl
select_by_id_longer b (t ∷ ts) h = elim (Bool-cases (has_id (valid_uuid b) t)) [
  | inl same ↦
      let e = ap length ((bytes_eq_iff b t.id.bytes).0 (ground arith)) in absurd (omega (arith, e))
  | inr other ↦ rw other (select_by_id_longer b ts (omega arith))
]

unfoldable pub insert_new : CreateTrackParams → World → Result Row × World
insert_new p w =
    let t = inserted p (new_id w) w.now in
    (
      ok (row_of t),
      record w {
        table = t ∷ w.table;
        stored = (inserted-IsStored p (new_id w) w.now, w.stored);
        now = w.now + 1;
      },
    )

unfoldable pub row_or_none : Option Track → World → Result Row × World
row_or_none none w = (err no_rows, w)
row_or_none (some t) w = (ok (row_of t), w)

unfoldable pub run_row : Statement → List Value → Exec World Row
unfolding insert_new row_or_none
run_row create_track_sql (text a ∷ text t ∷ text f ∷ text k ∷ int8 n ∷ text s ∷ []) w =
    insert_new
      (record {
        artist = a;
        title = t;
        original_filename = f;
        original_object_key = k;
        original_size = n;
        status = s;
      })
      w
run_row get_track_by_id_sql (uuid b ∷ []) w = row_or_none (select_by_id (valid_uuid b) w.table) w
run_row get_track_by_id_sql _ w = (err no_rows, w)
run_row _ _ w = (err service, w)

abbrev pub delete_in : Uuid → World → World
delete_in id w = record w {
  table = delete_by_id id w.table;
  stored = delete_by_id-All IsStored id w.table w.stored;
}

unfoldable pub run_exec : Statement → List Value → Exec World (Unit {0})
run_exec delete_track_by_id_sql (uuid b ∷ []) w = (ok tt, delete_in (valid_uuid b) w)
run_exec delete_track_by_id_sql _ w = (ok tt, w)
run_exec _ _ w = (err service, w)

unfoldable pub run_query : Statement → List Value → Exec World Rows
run_query list_tracks_by_status_sql (text s ∷ []) w =
    (ok (record { fetched = map row_of (newest_first (with_status s w.table)); failure = none }), w)
run_query list_tracks_sql [] w =
    (ok (record { fetched = map row_of (newest_first w.table); failure = none }), w)
run_query list_ready_tracks_sql [] w = (
  ok (record {
    fetched = map row_of (newest_first (with_status track_status_ready w.table));
    failure = none;
  }),
  w,
)
run_query _ _ w = (err service, w)

abbrev pub memory_db : Dbtx World
memory_db = record { exec = run_exec; query = run_query; query_row = run_row }

insert_new-InsertOutcome :
    (p : CreateTrackParams) (w : World) → InsertOutcome observed p w (insert_new p w)
unfolding insert_new
insert_new-InsertOutcome p w =
    InsertOutcome.done (new_id w) w.now
      (select_by_id_longer (new_id w) w.table
        (omega (arith, length-random_bytes (suc (total w.table)))))
      (record { tracks = refl; objects = record { at = λ b k. refl }; jobs = refl })

row_or_none-SelectOutcome :
    (id : Uuid) (w : World) (found : Option Track)
    → select_by_id id w.table ≡ found
    → SelectOutcome observed id w (row_or_none found w)
unfolding row_or_none
row_or_none-SelectOutcome id w none e = SelectOutcome.missing e (Untouched-refl observed w)
row_or_none-SelectOutcome id w (some t) e =
    SelectOutcome.found t e (select_by_id-All IsStored id w.table w.stored e)
      (Untouched-refl observed w)

-- NULL is no row's id.
pub select_null :
    (b : Bytes) (ts : List Track) → select_by_id (record { bytes = b; valid = false }) ts ≡ none
unfolding select_by_id
select_null b [] = refl
select_null b (t ∷ ts) = select_null b ts

delete_null :
    (b : Bytes) (ts : List Track) → delete_by_id (record { bytes = b; valid = false }) ts ≡ ts
unfolding delete_by_id
delete_null b [] = refl
delete_null b (t ∷ ts) = ap (λ us. t ∷ us) (delete_null b ts)

memory_select :
    (b : Bytes) (valid : Bool) (w : World)
    → let id : Uuid = record { bytes = b; valid = valid } in
      SelectOutcome observed id w (run_row get_track_by_id_sql (id_arg id ∷ []) w)
unfolding run_row
memory_select b true w = row_or_none-SelectOutcome (valid_uuid b) w _ refl
memory_select b false w = SelectOutcome.missing (select_null b w.table) (Untouched-refl observed w)

memory_delete :
    (b : Bytes) (valid : Bool) (w : World)
    → let id : Uuid = record { bytes = b; valid = valid } in
      DeleteRowOutcome observed id w (run_exec delete_track_by_id_sql (id_arg id ∷ []) w)
unfolding run_exec
memory_delete b true w =
    DeleteRowOutcome.done
      (record { tracks = refl; objects = record { at = λ b k. refl }; jobs = refl })
memory_delete b false w = DeleteRowOutcome.done (record {
  tracks = sym (delete_null b w.table);
  objects = record { at = λ b k. refl };
  jobs = refl;
})

pub memory_db-IsDatabase : IsDatabase observed memory_db
unfolding run_row run_query
memory_db-IsDatabase = record {
  insert = λ p w. insert_new-InsertOutcome p w;
  delete = λ id w. memory_delete id.bytes id.valid w;
  select = λ id w. memory_select id.bytes id.valid w;
  list = λ s w.
      ListOutcome.listed (newest_first (with_status s w.table)) (newest_first-perm _)
        (newest_first-NewestFirst _)
        (All-newest_first IsStored _ (with_status-All IsStored s w.table w.stored))
        (Untouched-refl observed w);
}
