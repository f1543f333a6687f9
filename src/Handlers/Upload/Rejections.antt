-- ===== src/Handlers/Upload/Rejections.antt =====
-- What the requests that do not pass the checks of the upload handler are answered.
use audio_streaming_service.Common.{
  ◌<◌, ◌≤◌, ◌≡◌, ◌≢◌, refl, [], length, Option, none, some, Bytes, codes, bytes_eq_iff, ◌⊎◌, inl,
  inr, Error, Result, ok, err, arith, Bool-cases, Option-cases,
}
use audio_streaming_service.Config.{Config}
use audio_streaming_service.Handlers.{FilePart, Form, Request, Response, first_value}
use audio_streaming_service.Handlers.Upload.{
  reply, check_content, check_file, check_texts, check_form, is_supported_audio, check_upload,
  parse_multipart_form, form_value,
}
use audio_streaming_service.Handlers.Upload.Checks.{
  IsSupported, is_supported_audio_iff, GivesText, form_value_iff,
}
use audio_streaming_service.Std.Strings.{trim_space}

-- The file is missing, or it has a supported name but cannot be read.
abbrev pub IsUnreadable : Option FilePart → Type 0
IsUnreadable file =
    (file ≡ none)
    ⊎ ((part : FilePart) × (e : Error) × (file ≡ some part)
        × IsSupported part.filename
        × (part.content ≡ err e))

abbrev pub IsUnsupported : Option FilePart → Type 0
IsUnsupported file = (part : FilePart) × (file ≡ some part) × ¬ IsSupported part.filename

check_content-status :
    (artist title : Bytes) (file : FilePart) (content : Result Bytes) {x : Response}
    → check_content artist title file content ≡ reply x
    → (x.status ≡ 400) × (e : Error) × (content ≡ err e)
unfolding check_content
check_content-status artist title file (ok body) h = cc
check_content-status artist title file (err e) h = (ground arith, e, refl)

check_file-status :
    (artist title : Bytes) (file : Option FilePart) {x : Response}
    → check_file artist title file ≡ reply x
    → ((x.status ≡ 400) × IsUnreadable file) ⊎ ((x.status ≡ 415) × IsUnsupported file)
unfolding check_file
check_file-status artist title none h = inl (ground arith, inl refl)
check_file-status artist title (some part) h =
    let supported = is_supported_audio_iff part.filename in
    elim (Bool-cases (is_supported_audio part.filename)) [
      | inl audio ↦
          let (status, e, unread) =
            check_content-status artist title part part.content (rw (audio) at h) in
          inl (status, inr (part, e, refl, supported.0 audio, unread))
      | inr other ↦ inr (ground arith, (part, refl, λ s. cc (other, supported.1 s)))
    ]

-- A text that is empty, or longer than its column
abbrev pub IsBadText : Bytes → Type 0
IsBadText s = (s ≡ []) ⊎ (255 < length s)

abbrev pub IsGoodText : Bytes → Type 0
IsGoodText s = (s ≢ []) × (length s ≤ 255)

check_texts-status :
    (artist title : Bytes) (file : Option FilePart) {x : Response}
    → check_texts artist title file ≡ reply x
    → ((x.status ≡ 400) × (IsBadText artist ⊎ IsBadText title))
      ⊎ (IsGoodText artist × IsGoodText title × (check_file artist title file ≡ reply x))
unfolding check_texts
check_texts-status artist title file h =
    ground (arith, bytes_eq_iff artist [], bytes_eq_iff title [])

parse-none :
    (cfg : Config) (r : Request)
    → parse_multipart_form cfg.upload_max_bytes r ≡ none
    → (cfg.upload_max_bytes < r.form_size) ⊎ (r.form ≡ none)
parse-none cfg r h = ground arith

parse-eq-some :
    (cfg : Config) (r : Request) {form : Form}
    → parse_multipart_form cfg.upload_max_bytes r ≡ some form
    → (r.form_size ≤ cfg.upload_max_bytes) × (r.form ≡ some form)
parse-eq-some cfg r h = ground arith

-- The two texts of a request whose form has been read
pub record Fields (r : Request) (form : Form) : Type 0 where
  pub artist : Bytes
  pub title : Bytes
  pub artist_given : GivesText r form (codes "artist") artist
  pub title_given : GivesText r form (codes "title") title

abbrev pub HasBadText : {r : Request} {form : Form} → Fields r form → Type 0
HasBadText f = IsBadText (trim_space f.artist) ⊎ IsBadText (trim_space f.title)

abbrev pub HasGoodTexts : {r : Request} {form : Form} → Fields r form → Type 0
HasGoodTexts f = IsGoodText (trim_space f.artist) × IsGoodText (trim_space f.title)

-- A bad text; or good texts with a file that cannot be read, or one that is not supported
abbrev pub IsRefusedForm : (r : Request) → Form → Response → Type 0
IsRefusedForm r form x =
    (f : Fields r form) × ((x.status ≡ 400) × HasBadText f
      ⊎ ((x.status ≡ 400) × HasGoodTexts f × IsUnreadable (first_value (codes "file") form.files))
      ⊎ ((x.status ≡ 415) × HasGoodTexts f × IsUnsupported (first_value (codes "file") form.files)))

-- A form that cannot be read, or one that is refused: no two of the causes go together.
abbrev pub IsRejection : Config → Request → Response → Type 0
IsRejection cfg r x =
    ((x.status ≡ 413) × ((cfg.upload_max_bytes < r.form_size) ⊎ (r.form ≡ none)))
    ⊎ ((r.form_size ≤ cfg.upload_max_bytes)
        × (form : Form) × (r.form ≡ some form)
        × IsRefusedForm r form x)

pub IsRejection-status :
    (cfg : Config) (r : Request) (x : Response)
    → IsRejection cfg r x
    → (x.status ≡ 413) ⊎ (x.status ≡ 400) ⊎ (x.status ≡ 415)
IsRejection-status cfg r x (inl (s, _)) = inl s
IsRejection-status cfg r x (inr (_, form, _, (f, inl (s, _)))) = inr (inl s)
IsRejection-status cfg r x (inr (_, form, _, (f, inr (inl (s, _, _))))) = inr (inl s)
IsRejection-status cfg r x (inr (_, form, _, (f, inr (inr (s, _, _))))) = inr (inr s)

fields_of : (r : Request) (form : Form) → Fields r form
fields_of r form = record {
  artist = form_value r form (codes "artist");
  title = form_value r form (codes "title");
  artist_given = (form_value_iff r form (codes "artist") _).0 refl;
  title_given = (form_value_iff r form (codes "title") _).0 refl;
}

check_form-status :
    (r : Request) (form : Form) {x : Response}
    → check_form r (some form) ≡ reply x
    → IsRefusedForm r form x
unfolding check_form fields_of
check_form-status r form h = elim (check_texts-status _ _ _ h) [
  | inl (status, bad) ↦ (fields_of r form, inl (status, bad))
  | inr (artist, title, h') ↦ elim (check_file-status _ _ _ h') [
    | inl (status, unread) ↦ (fields_of r form, inr (inl (status, (artist, title), unread)))
    | inr (status, other) ↦ (fields_of r form, inr (inr (status, (artist, title), other)))
  ]
]

check_form-none : (r : Request) {x : Response} → check_form r none ≡ reply x → x.status ≡ 413
unfolding check_form
check_form-none r h = ground arith

pub check_upload-status :
    (cfg : Config) (r : Request) {x : Response} → check_upload cfg r ≡ reply x → IsRejection cfg r x
unfolding check_upload
check_upload-status cfg r h = elim (Option-cases (parse_multipart_form cfg.upload_max_bytes r)) [
  | inl refused ↦ inl (check_form-none r (rw refused at h), parse-none cfg r refused)
  | inr (form, read) ↦
      let (fits, parsed) = parse-eq-some cfg r read in
      inr (fits, form, parsed, check_form-status r form (rw read at h))
]
