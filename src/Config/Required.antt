-- ===== src/Config/Required.antt =====
-- What `NewConfig` refuses.
use audio_streaming_service.Common.{
  ◌≡◌, ◌≢◌, List, [], ◌∷◌, All, none, Bytes, codes, ok, Result, ◌>>=◌, >>=-eq-ok,
}
use audio_streaming_service.Config.{Config}
use audio_streaming_service.Config.Environment.{
  Environment, Tag, required, defaulted, EnvPackage, new_config,
}
use audio_streaming_service.Config.Package.{IsEnvPackage}

abbrev pub required_names : List Bytes
required_names =
    codes "S3_ENDPOINT"
    ∷ codes "S3_BUCKET"
    ∷ codes "S3_ACCESS_KEY"
    ∷ codes "S3_SECRET_KEY"
    ∷ codes "S3_PUBLIC_BASE_URL"
    ∷ codes "POSTGRES_USER"
    ∷ codes "POSTGRES_PASSWORD"
    ∷ codes "POSTGRES_DB"
    ∷ []

module _ (pkg : EnvPackage) (laws : IsEnvPackage pkg) (env : Environment) where
  is_set : (name v : Bytes) → pkg.text_of env (required name) ≡ ok v → env name ≢ none
  is_set name v e n = laws.missing env name v n e

  -- What a text gives, and what is read from it
  given :
      {B : Type 0} {next : Bytes → Result B} {c : B} (tag : Tag)
      → (pkg.text_of env tag >>= next) ≡ ok c
      → (v : Bytes) × (pkg.text_of env tag ≡ ok v) × (next v ≡ ok c)
  given tag h = >>=-eq-ok (pkg.text_of env tag) _ h

  parsed :
      {A B : Type 0} {next : A → Result B} {c : B} (tag : Tag) (parse : Bytes → Result A)
      → ((pkg.text_of env tag >>= parse) >>= next) ≡ ok c
      → (v : A) × ((pkg.text_of env tag >>= parse) ≡ ok v) × (next v ≡ ok c)
  parsed tag parse h = >>=-eq-ok (pkg.text_of env tag >>= parse) _ h

  -- A configuration is returned only where each of the eight required variables is set.
  pub new_config-required :
      (c : Config) → new_config pkg env ≡ ok c → All (λ name. env name ≢ none) required_names
  unfolding new_config
  new_config-required c h0 =
      let (v0, e0, h1) =
        parsed (defaulted (codes "CORE_API_PORT") (codes "8000")) pkg.parse_int h0 in
      let (v1, e1, h2) =
        parsed (defaulted (codes "CORE_API_READ_HEADER_TIMEOUT") (codes "5s")) pkg.parse_duration
          h1 in
      let (v2, e2, h3) =
        parsed (defaulted (codes "CORE_API_READ_TIMEOUT") (codes "15s")) pkg.parse_duration h2 in
      let (v3, e3, h4) =
        parsed (defaulted (codes "CORE_API_WRITE_TIMEOUT") (codes "15s")) pkg.parse_duration h3 in
      let (v4, e4, h5) =
        parsed (defaulted (codes "CORE_API_IDLE_TIMEOUT") (codes "60s")) pkg.parse_duration h4 in
      let (v5, e5, h6) =
        parsed (defaulted (codes "CORE_API_UPLOAD_MAX_BYTES") (codes "52428800")) pkg.parse_int64
          h5 in
      let (v6, e6, h7) =
        parsed (defaulted (codes "CORE_API_DOWNLOAD_URL_EXPIRES") (codes "15m")) pkg.parse_duration
          h6 in
      let (v7, e7, h8) =
        parsed (defaulted (codes "CORE_API_TRANSCODE_JOB_PRIORITY") (codes "1")) pkg.parse_int h7 in
      let (v8, e8, h9) = given (required (codes "S3_ENDPOINT")) h8 in
      let (v9, e9, h10) = given (defaulted (codes "S3_REGION") (codes "ru-1")) h9 in
      let (v10, e10, h11) = given (required (codes "S3_BUCKET")) h10 in
      let (v11, e11, h12) = given (required (codes "S3_ACCESS_KEY")) h11 in
      let (v12, e12, h13) = given (required (codes "S3_SECRET_KEY")) h12 in
      let (v13, e13, h14) = given (required (codes "S3_PUBLIC_BASE_URL")) h13 in
      let (v14, e14, h15) =
        given (defaulted (codes "KAFKA_BROKERS") (codes "localhost:9094")) h14 in
      let (v15, e15, h16) =
        given (defaulted (codes "KAFKA_TRANSCODE_TOPIC") (codes "transcode-jobs")) h15 in
      let (v16, e16, h17) =
        parsed (defaulted (codes "KAFKA_WRITE_TIMEOUT") (codes "10s")) pkg.parse_duration h16 in
      let (v17, e17, h18) =
        parsed (defaulted (codes "KAFKA_READ_TIMEOUT") (codes "10s")) pkg.parse_duration h17 in
      let (v18, e18, h19) = given (defaulted (codes "POSTGRES_HOST") (codes "localhost")) h18 in
      let (v19, e19, h20) =
        parsed (defaulted (codes "POSTGRES_PORT") (codes "5432")) pkg.parse_int h19 in
      let (v20, e20, h21) = given (required (codes "POSTGRES_USER")) h20 in
      let (v21, e21, h22) = given (required (codes "POSTGRES_PASSWORD")) h21 in
      let (v22, e22, h23) = given (required (codes "POSTGRES_DB")) h22 in
      (
        is_set _ v8 e8,
        (
          is_set _ v10 e10,
          (
            is_set _ v11 e11,
            (
              is_set _ v12 e12,
              (is_set _ v13 e13, (is_set _ v20 e20, (is_set _ v21 e21, (is_set _ v22 e22, tt)))),
            ),
          ),
        ),
      )
