-- ===== src/Std/Url.antt =====
-- Package net/url: what `URL.String` and `Values.Encode` print, and how escapes are read.
pub mod Laws
use audio_streaming_service.Common.{
  ℕ, ◌+◌, ◌-◌, ◌*◌, ◌/◌, ◌%◌, ◌<◌, ◌≡◌, ◌≢◌, refl, ap, ◌∙◌, Bool, true, false, not, ◌&&◌, ◌||◌,
  List, [], ◌∷◌, ◌++◌, append_assoc, Option, none, some, arith, ltb, leb, ◌==◌, if◌then◌else◌, All,
  All-append, Bytes, codes, bytes_eq, Bool-cases, ◌⊎◌, inl, inr,
}

-- The parts of a URL that are escaped differently
pub data Mode : Type 0 where
  encode_host encode_user_password encode_path encode_query_component : Mode

abbrev pub is_one_byte_of : ℕ → Bytes → Bool
is_one_byte_of c [] = false
is_one_byte_of c (d ∷ s) = c == d || is_one_byte_of c s

abbrev is_alphanumeric : ℕ → Bool
is_alphanumeric c =
    (leb b'a' c && leb c b'z') || (leb b'A' c && leb c b'Z') || (leb b'0' c && leb c b'9')

-- The reserved characters that a mode escapes
abbrev escapes_reserved : Mode → ℕ → Bool
escapes_reserved encode_path c = c == b'?'
escapes_reserved encode_user_password c = is_one_byte_of c (codes "@/?:")
escapes_reserved encode_query_component c = true
escapes_reserved encode_host c = true

abbrev is_host_mark : Mode → ℕ → Bool
is_host_mark encode_host c = is_one_byte_of c (codes "!$&'()*+,;=:[]<>\"")
is_host_mark _ c = false

-- `shouldEscape`
unfoldable pub should_escape : Mode → ℕ → Bool
should_escape mode c =
    if is_alphanumeric c || is_host_mark mode c || is_one_byte_of c (codes "-_.~")
    then false
    else if is_one_byte_of c (codes "$&+,/:;=?@")
    then escapes_reserved mode c
    else true

abbrev upper_digit : ℕ → ℕ
upper_digit n = if ltb n 10 then b'0' + n else b'A' + (n - 10)

abbrev is_query : Mode → Bool
is_query encode_query_component = true
is_query _ = false

unfoldable pub escape_byte : Mode → ℕ → Bytes
unfolding should_escape
escape_byte mode c =
    if should_escape mode c
    then (if is_query mode && c == b' '
        then codes "+"
        else b'%' ∷ upper_digit (c / 16) ∷ upper_digit (c % 16) ∷ [])
    else c ∷ []

-- `escape`
unfoldable pub escape : Mode → Bytes → Bytes
unfolding escape_byte
escape mode [] = []
escape mode (c ∷ s) = escape_byte mode c ++ escape mode s

-- `URL`, with a scheme, a user and a password
pub record Url : Type 0 where
  pub scheme : Bytes
  pub username : Bytes
  pub password : Bytes
  pub host : Bytes
  pub path : Bytes
  pub raw_query : Bytes

-- `EscapedPath` where `RawPath` is not set
abbrev pub escaped_path : Bytes → Bytes
escaped_path p = if bytes_eq p (codes "*") then p else escape encode_path p

-- A path that does not start with a slash gets one behind a host.
abbrev pub slashed : Bytes → Bytes → Bytes
slashed _ [] = []
slashed [] (c ∷ p) = c ∷ p
slashed (_ ∷ _) (c ∷ p) = if c == b'/' then c ∷ p else b'/' ∷ c ∷ p

abbrev pub query_part : Bytes → Bytes
query_part [] = []
query_part (c ∷ q) = b'?' ∷ c ∷ q

-- `Userinfo.String` of what `UserPassword` makes
abbrev pub userinfo : Bytes → Bytes → Bytes
userinfo username password =
    if bytes_eq username [] && bytes_eq password []
    then []
    else escape encode_user_password username ++ (b':' ∷ escape encode_user_password password)

-- `URL.String`
unfoldable pub url_string : Url → Bytes
unfolding escape
url_string u =
    u.scheme
    ++ (codes "://"
        ++ (userinfo u.username u.password
            ++ (b'@'
                ∷ (escape encode_host u.host
                    ++ (slashed u.host (escaped_path u.path) ++ query_part u.raw_query)))))

-- `Values.Encode` of one key with one value
unfoldable pub encode_value : Bytes → Bytes → Bytes
unfolding escape
encode_value key value =
    escape encode_query_component key ++ (b'=' ∷ escape encode_query_component value)
