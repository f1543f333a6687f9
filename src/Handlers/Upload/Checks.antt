-- ===== src/Handlers/Upload/Checks.antt =====
-- Which requests pass the checks of the upload handler, and what the others are answered.
use audio_streaming_service.Common.{
  ◌≤◌, ◌≡◌, ◌≢◌, refl, sym, ap, ◌∙◌, ◌↔◌, true, List, [], ◌∷◌, ◌++◌, ◌⊎◌, inl, inr, Bool-cases,
  Option-cases, Option, none, some, Bytes, codes, length, bytes_eq, bytes_eq_iff, Result, ok, err,
  arith,
}
use audio_streaming_service.Config.{Config}
use audio_streaming_service.Handlers.{FilePart, Form, Request, first_value, or_empty}
use audio_streaming_service.Handlers.Upload.{
  Upload, pass, check_content, check_file, check_texts, check_form, is_supported_audio, supports,
  supported_extensions, form_value, check_upload, parse_multipart_form,
}
use audio_streaming_service.Std.Strings.{trim_space}
use audio_streaming_service.Std.Strings.Laws.{IsOneOf, is_one_of_iff}
use audio_streaming_service.TrackStorage.Keys.OriginalKeys.{extension_of}

-- .mp3, .flac or .wav in any case, behind the last dot of the trimmed name
abbrev pub IsSupported : Bytes → Type 0
IsSupported filename =
    IsOneOf (extension_of filename) (codes ".mp3" ∷ codes ".flac" ∷ codes ".wav" ∷ [])

-- `isSupportedAudio` accepts a name if and only if the extension of the trimmed name, in lower case,
-- is .mp3, .flac or .wav.
pub is_supported_audio_iff :
    (filename : Bytes) → (is_supported_audio filename ≡ true) ↔ IsSupported filename
unfolding is_supported_audio bytes_eq
is_supported_audio_iff filename = supports_iff (extension_of filename)
  where
    supports_iff : (e : Bytes) → (supports e ≡ true) ↔ IsOneOf e supported_extensions
    supports_iff [] = (λ h. cc, λ h. ground arith)
    supports_iff (c ∷ e) = is_one_of_iff (c ∷ e) supported_extensions

-- The text of a field: the first of that name in the query; if there is none there, the first in the
-- form; and empty if there is none at all
abbrev pub GivesText : Request → Form → Bytes → Bytes → Type 0
GivesText r form name s =
    (first_value name r.query ≡ some s)
    ⊎ ((first_value name r.query ≡ none)
        × ((first_value name form.values ≡ some s)
            ⊎ ((first_value name form.values ≡ none) × (s ≡ []))))

or_empty-first_value :
    (name : Bytes) (xs ys : List (Bytes × Bytes)) (s : Bytes)
    → (or_empty (first_value name (xs ++ ys)) ≡ s) ↔ (
        (first_value name xs ≡ some s)
        ⊎ ((first_value name xs ≡ none)
            × ((first_value name ys ≡ some s) ⊎ ((first_value name ys ≡ none) × (s ≡ [])))))
or_empty-first_value name [] ys s = elim (Option-cases (first_value name ys)) [
  | inl e ↦ rw e (λ h. inr (refl, inr (refl, sym h)), λ h. ground arith)
  | inr (v, e) ↦ rw e (λ h. inr (refl, inl (ap some h)), λ h. ground arith)
]
or_empty-first_value name ((k, v) ∷ xs) ys s = elim (Bool-cases (bytes_eq k name)) [
  | inl e ↦ rw e (λ h. inl (ap some h), λ h. ground arith)
  | inr e ↦ rw e (or_empty-first_value name xs ys s)
]

-- `FormValue` gives that text.
pub form_value_iff :
    (r : Request) (form : Form) (name s : Bytes)
    → (form_value r form name ≡ s) ↔ GivesText r form name s
form_value_iff r form name s = or_empty-first_value name r.query form.values s

-- A text field of the request: what is asked of it, and what is stored
pub record IsField (r : Request) (form : Form) (name value : Bytes) : Type 0 where
  pub text : Bytes
  pub given : GivesText r form name text
  pub trimmed : value ≡ trim_space text
  pub full : value ≢ []
  pub short : length value ≤ 255

IsField-trimmed :
    (r : Request) (form : Form) (name value : Bytes)
    → IsField r form name value
    → value ≡ trim_space (form_value r form name)
IsField-trimmed r form name value f =
    f.trimmed ∙ ap trim_space (sym ((form_value_iff r form name f.text).1 f.given))

pub record IsChecked (cfg : Config) (r : Request) (u : Upload) : Type 0 where
  pub form : Form
  pub part : FilePart
  pub fits : r.form_size ≤ cfg.upload_max_bytes
  pub parsed : r.form ≡ some form
  pub artist : IsField r form (codes "artist") u.artist
  pub title : IsField r form (codes "title") u.title
  pub attached : first_value (codes "file") form.files ≡ some part
  pub supported : IsSupported part.filename
  pub read : part.content ≡ ok u.body
  pub filename : u.filename ≡ part.filename
  pub content_type : u.content_type ≡ part.content_type

check_content-pass :
    (artist title : Bytes) (file : FilePart) (content : Result Bytes) (u : Upload)
    → (check_content artist title file content ≡ pass u) ↔ (
        (artist ≡ u.artist)
        × (title ≡ u.title)
        × (content ≡ ok u.body)
        × (u.filename ≡ file.filename)
        × (u.content_type ≡ file.content_type))
unfolding check_content
check_content-pass artist title file (err e) u = (λ h. cc, λ h. cc)
check_content-pass artist title file (ok body) u = (λ h. ground arith, λ h. ground arith)

check_file-pass :
    (artist title : Bytes) (file : FilePart) (u : Upload)
    → (check_file artist title (some file) ≡ pass u) ↔ (
        (is_supported_audio file.filename ≡ true)
        × (check_content artist title file file.content ≡ pass u))
unfolding check_file
check_file-pass artist title file u = ground arith

check_texts-pass :
    (artist title : Bytes) (file : Option FilePart) (u : Upload)
    → (check_texts artist title file ≡ pass u) ↔ (
        (artist ≢ [])
        × (title ≢ [])
        × (length artist ≤ 255)
        × (length title ≤ 255)
        × (check_file artist title file ≡ pass u))
unfolding check_texts
check_texts-pass artist title file u = ground (arith, bytes_eq_iff artist [], bytes_eq_iff title [])

check_form-pass :
    (r : Request) (parsed : Option Form) (u : Upload)
    → check_form r parsed ≡ pass u
    → (form : Form) × (parsed ≡ some form)
      × (check_texts
            (trim_space (form_value r form (codes "artist")))
            (trim_space (form_value r form (codes "title")))
            (first_value (codes "file") form.files)
          ≡ pass u)
unfolding check_form
check_form-pass r none u h = cc
check_form-pass r (some form) u h = (form, refl, h)

check_file-some :
    (artist title : Bytes) (file : Option FilePart) (u : Upload)
    → check_file artist title file ≡ pass u
    → (part : FilePart) × (file ≡ some part) × (check_file artist title (some part) ≡ pass u)
unfolding check_file
check_file-some artist title none u h = cc
check_file-some artist title (some part) u h = (part, refl, h)

-- A request that passes the checks has a form within the limit, with an artist and a
-- title, which are not empty and at most 255 bytes when trimmed, and with a file that can be read
-- and has a supported name; and what is handed on is those.
pub check_upload-IsChecked :
    (cfg : Config) (r : Request) (u : Upload) → check_upload cfg r ≡ pass u → IsChecked cfg r u
unfolding check_upload
check_upload-IsChecked cfg r u h =
    let (form, parsed, h1) = check_form-pass r (parse_multipart_form cfg.upload_max_bytes r) u h in
    let (a_full, t_full, a_short, t_short, h2) = (check_texts-pass _ _ _ u).0 h1 in
    let (part, attached, h3) = check_file-some _ _ _ u h2 in
    let (audio, h4) = (check_file-pass _ _ part u).0 h3 in
    let (artist, title, read, filename, content_type) = (check_content-pass _ _ part _ u).0 h4 in
    record {
      form = form;
      part = part;
      fits = ground arith;
      parsed = ground arith;
      artist = record {
        text = form_value r form (codes "artist");
        given = (form_value_iff r form (codes "artist") _).0 refl;
        trimmed = sym artist;
        full = rw artist at a_full;
        short = rw artist at a_short;
      };
      title = record {
        text = form_value r form (codes "title");
        given = (form_value_iff r form (codes "title") _).0 refl;
        trimmed = sym title;
        full = rw title at t_full;
        short = rw title at t_short;
      };
      attached = attached;
      supported = (is_supported_audio_iff part.filename).0 audio;
      read = read;
      filename = filename;
      content_type = content_type;
    }

parse-some :
    (cfg : Config) (r : Request) (form : Form)
    → r.form_size ≤ cfg.upload_max_bytes
    → r.form ≡ some form
    → parse_multipart_form cfg.upload_max_bytes r ≡ some form
parse-some cfg r form fits parsed = ground arith

-- Every request that meets the conditions of `IsChecked` (the size, the form, the two texts, the
-- file and its name) passes the checks, with the values that it names.
pub check_upload_of_IsChecked :
    (cfg : Config) (r : Request) (u : Upload) → IsChecked cfg r u → check_upload cfg r ≡ pass u
unfolding check_upload check_form
check_upload_of_IsChecked cfg r u c = rw (parse-some cfg r c.form c.fits c.parsed) (
    rw (sym (IsField-trimmed r c.form (codes "artist") u.artist c.artist)) (
      rw (sym (IsField-trimmed r c.form (codes "title") u.title c.title)) (
        (check_texts-pass u.artist u.title (first_value (codes "file") c.form.files) u).1 (
          c.artist.full,
          c.title.full,
          c.artist.short,
          c.title.short,
          rw c.attached (
              (check_file-pass u.artist u.title c.part u).1 (
                (is_supported_audio_iff c.part.filename).1 c.supported,
                (check_content-pass u.artist u.title c.part c.part.content u).1
                    (refl, refl, c.read, c.filename, c.content_type),
              )),
        ))))

-- A request passes the checks, with an artist, a title and a file, if and only if reading its form
-- takes no more bytes than the limit, and these texts are what the query gives, or else the form,
-- trimmed, not empty and at most 255 bytes, and this file is the first of the form with the name
-- `file`, can be read, and has a name with the extension .mp3, .flac or .wav in any case.
pub check_upload_iff :
    (cfg : Config) (r : Request) (u : Upload) → (check_upload cfg r ≡ pass u) ↔ IsChecked cfg r u
check_upload_iff cfg r u = (check_upload-IsChecked cfg r u, check_upload_of_IsChecked cfg r u)
