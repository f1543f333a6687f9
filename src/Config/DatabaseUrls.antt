-- ===== src/Config/DatabaseUrls.antt =====
-- What a reader of the database URL finds in it.
use audio_streaming_service.Common.{
  ℕ, ◌<◌, ◌≡◌, ◌≢◌, refl, sym, ap, ◌∙◌, true, false, [], ◌∷◌, ◌++◌, append_assoc, Option, none,
  some, arith, ◌==◌, if◌then◌else◌, All, All-append, All-map, Bytes, codes, bytes_eq, bytes_eq_iff,
  Bool-cases, ◌⊎◌, ◌&&◌, inl, inr,
}
use audio_streaming_service.Config.{Config, database_url}
use audio_streaming_service.Std.Format.{decimal_int, IsNumeric, decimal_int-All}
use audio_streaming_service.Std.Strings.{after_prefix}
use audio_streaming_service.Std.Url.{
  encode_host, encode_user_password, encode_path, encode_query_component, should_escape,
  escape_byte, escape, url_string, encode_value, userinfo, slashed, escaped_path, query_part,
}
use audio_streaming_service.Std.Url.Laws.{
  unescape, unescape-escape, Lacks, escape-Lacks, escape_kept, unescape_star,
}

-- `strings.Cut` at a byte: what stands before the first one, and what behind it
unfoldable pub cut : ℕ → Bytes → Bytes × Bytes
cut d [] = ([], [])
cut d (c ∷ s) = let (a, b) = cut d s in if c == d then ([], s) else (c ∷ a, b)

cut_of_Lacks : (d : ℕ) (a b : Bytes) → Lacks d a → cut d (a ++ (d ∷ b)) ≡ (a, b)
unfolding cut
cut_of_Lacks d [] b _ = ground arith
cut_of_Lacks d (c ∷ a) b (n, ns) = rw (cut_of_Lacks d a b ns) (ground arith)

-- What a reader of the URL knows of the database
pub record Target : Type 0 where
  pub username : Option Bytes
  pub password : Option Bytes
  pub address : Bytes
  pub database : Option Bytes
  pub parameter : Bytes
  pub value : Option Bytes

-- {username}:{password}@{address}/{database}?{parameter}={value}
unfoldable pub read_target : Bytes → Target
unfolding cut
read_target s =
    let (userinfo, rest) = cut b'@' s in
    let (username, password) = cut b':' userinfo in
    let (address, rest) = cut b'/' rest in
    let (database, query) = cut b'?' rest in
    let (parameter, value) = cut b'=' query in
    record {
      username = unescape false username;
      password = unescape false password;
      address = address;
      database = unescape false database;
      parameter = parameter;
      value = unescape true value;
    }

abbrev read_rest : Option Bytes → Option Target
read_rest none = none
read_rest (some s) = some (read_target s)

unfoldable pub read_database_url : Bytes → Option Target
unfolding read_target after_prefix
read_database_url s = read_rest (after_prefix s (codes "postgres://"))

IsNumeric-kept : (c : ℕ) → IsNumeric c → should_escape encode_host c ≡ false
unfolding should_escape
IsNumeric-kept c h = ground arith

kept-ne-slash : (c : ℕ) → should_escape encode_host c ≡ false → c ≢ b'/'
unfolding should_escape
kept-ne-slash c h = ground arith

-- The parts of the URL, joined by the bytes that none of them holds
abbrev assembled : Bytes → Bytes → Bytes → Bytes → Bytes → Bytes → Bytes
assembled u p a d k v =
    u ++ (b':' ∷ (p ++ (b'@' ∷ (a ++ (b'/' ∷ (d ++ (b'?' ∷ (k ++ (b'=' ∷ v)))))))))

read_target-assembled :
    (u p a d k v : Bytes)
    → Lacks b':' u
    → Lacks b'@' u
    → Lacks b'@' p
    → Lacks b'/' a
    → Lacks b'?' d
    → Lacks b'=' k
    → read_target (assembled u p a d k v) ≡ record {
      username = unescape false u;
      password = unescape false p;
      address = a;
      database = unescape false d;
      parameter = k;
      value = unescape true v;
    }
unfolding read_target
read_target-assembled u p a d k v hu hu' hp ha hd hk =
    let r3 = k ++ (b'=' ∷ v) in
    let r2 = d ++ (b'?' ∷ r3) in
    let r1 = a ++ (b'/' ∷ r2) in
    rw
      (ap (cut b'@') (sym (append_assoc u (b':' ∷ p) (b'@' ∷ r1)))
        ∙ cut_of_Lacks b'@' (u ++ (b':' ∷ p)) r1 (All-append _ u (b':' ∷ p) hu' (omega arith, hp)))
      (rw (cut_of_Lacks b':' u p hu) (
        rw (cut_of_Lacks b'/' a r2 ha)
          (rw (cut_of_Lacks b'?' d r3 hd) (rw (cut_of_Lacks b'=' k v hk) refl))))

-- The name of a database that can stand behind the slash of the path
abbrev pub IsName : Bytes → Type 0
IsName [] = ⊥
IsName (c ∷ d) = c ≢ b'/'

star_text : (d : Bytes) → bytes_eq d (codes "*") ≡ true → d ≡ codes "*"
star_text d e = (bytes_eq_iff d (codes "*")).0 e

escape_byte-IsName : (c : ℕ) (s : Bytes) → c ≢ b'/' → IsName (escape_byte encode_path c ++ s)
unfolding escape_byte should_escape
escape_byte-IsName c s n = ground arith

escaped_path-IsName : (d : Bytes) → IsName d → IsName (escaped_path d)
unfolding escape
escaped_path-IsName [] n = absurd n
escaped_path-IsName (c ∷ d) n = elim (Bool-cases (bytes_eq (c ∷ d) (codes "*"))) [
  | inl star ↦ rw star n
  | inr other ↦ rw other (escape_byte-IsName c (escape encode_path d) n)
]

slashed_of_IsName : (h p : Bytes) → h ≢ [] → IsName p → slashed h p ≡ b'/' ∷ p
slashed_of_IsName h [] n m = absurd m
slashed_of_IsName [] (c ∷ p) n m = absurd (n refl)
slashed_of_IsName (x ∷ h) (c ∷ p) n m = ground arith

escaped_path-facts :
    (d : Bytes)
    → All (λ c. c < 256) d
    → Lacks b'?' (escaped_path d) × (unescape false (escaped_path d) ≡ some d)
unfolding should_escape bytes_eq
escaped_path-facts d h = elim (Bool-cases (bytes_eq d (codes "*"))) [
  | inl star ↦ rw (star_text d star) ((omega arith, tt), unescape_star)
  | inr other ↦
      rw other
        (escape-Lacks encode_path b'?' d (omega arith) refl h, unescape-escape encode_path d h)
]

abbrev address_of : Config → Bytes
address_of c = c.postgres_host ++ (b':' ∷ decimal_int c.postgres_port)

-- Where the host has only bytes that a URL's host is printed with
abbrev pub IsHost : Bytes → Type 0
IsHost = All (λ c. should_escape encode_host c ≡ false)

address_kept : (c : Config) → IsHost c.postgres_host → IsHost (address_of c)
unfolding should_escape
address_kept c h =
    All-append _ c.postgres_host (b':' ∷ decimal_int c.postgres_port) h
      (refl, All-map IsNumeric-kept (decimal_int c.postgres_port) (decimal_int-All c.postgres_port))

address-ne-nil : (s t : Bytes) → s ++ (b':' ∷ t) ≢ []
address-ne-nil [] t e = cc
address-ne-nil (c ∷ s) t e = cc

query_part-encode_value :
    (v : Bytes)
    → query_part (encode_value (codes "sslmode") v)
      ≡ b'?' ∷ (codes "sslmode" ++ (b'=' ∷ escape encode_query_component v))
unfolding encode_value escape escape_byte should_escape
query_part-encode_value v = refl

-- The user and the password are not both empty, as then none of them is printed.
abbrev pub HasUser : Config → Type 0
HasUser c = (c.postgres_user ≢ []) ⊎ (c.postgres_password ≢ [])

userinfo_of_HasUser :
    (u p rest : Bytes)
    → (u ≢ []) ⊎ (p ≢ [])
    → userinfo u p ++ rest
      ≡ escape encode_user_password u ++ (b':' ∷ (escape encode_user_password p ++ rest))
userinfo_of_HasUser u p rest given =
    let e : (bytes_eq u [] && bytes_eq p []) ≡ false =
      ground (arith, bytes_eq_iff u [], bytes_eq_iff p []) in
    rw e (append_assoc (escape encode_user_password u) (b':' ∷ escape encode_user_password p) rest)

pub database_url-assembled :
    (c : Config)
    → HasUser c
    → IsHost c.postgres_host
    → IsName c.postgres_db
    → database_url c
      ≡ codes "postgres://"
        ++ assembled
            (escape encode_user_password c.postgres_user)
            (escape encode_user_password c.postgres_password)
            (address_of c)
            (escaped_path c.postgres_db)
            (codes "sslmode")
            (escape encode_query_component c.postgres_ssl_mode)
unfolding database_url url_string
database_url-assembled c given h n =
    rw (userinfo_of_HasUser c.postgres_user c.postgres_password _ given) (
      rw (escape_kept encode_host (address_of c) (address_kept c h)) (
        rw
          (slashed_of_IsName (address_of c) (escaped_path c.postgres_db)
            (address-ne-nil c.postgres_host (decimal_int c.postgres_port))
            (escaped_path-IsName c.postgres_db n))
          (rw (query_part-encode_value c.postgres_ssl_mode) refl)))

-- Where the user and the password are not both empty, they, the name of the database and the SSL mode
-- are sequences of bytes, the host has no byte to escape, and the name is not empty and does not start with a slash, the
-- database URL read back gives exactly these settings, whatever bytes they hold.
pub read_database_url-database_url :
    (c : Config)
    → HasUser c
    → All (λ x. x < 256) c.postgres_user
    → All (λ x. x < 256) c.postgres_password
    → All (λ x. x < 256) c.postgres_db
    → All (λ x. x < 256) c.postgres_ssl_mode
    → IsHost c.postgres_host
    → IsName c.postgres_db
    → read_database_url (database_url c)
      ≡ some (record {
        username = some c.postgres_user;
        password = some c.postgres_password;
        address = c.postgres_host ++ (b':' ∷ decimal_int c.postgres_port);
        database = some c.postgres_db;
        parameter = codes "sslmode";
        value = some c.postgres_ssl_mode;
      })
unfolding read_database_url after_prefix should_escape
read_database_url-database_url c given user password db mode host name =
    let (no_mark, named) = escaped_path-facts c.postgres_db db in
    rw (database_url-assembled c given host name) (
      ap some (
        read_target-assembled (escape encode_user_password c.postgres_user)
          (escape encode_user_password c.postgres_password) (address_of c)
          (escaped_path c.postgres_db) (codes "sslmode")
          (escape encode_query_component c.postgres_ssl_mode)
          (escape-Lacks encode_user_password b':' c.postgres_user (omega arith) refl user)
          (escape-Lacks encode_user_password b'@' c.postgres_user (omega arith) refl user)
          (escape-Lacks encode_user_password b'@' c.postgres_password (omega arith) refl password)
          (All-map kept-ne-slash (address_of c) (address_kept c host)) no_mark (omega arith)
        ∙ rw (unescape-escape encode_user_password c.postgres_user user) (
            rw (unescape-escape encode_user_password c.postgres_password password) (
              rw named
                (rw (unescape-escape encode_query_component c.postgres_ssl_mode mode) refl)))))
