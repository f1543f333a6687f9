-- ===== src/Config/Package.antt =====
-- What is relied on of package env, which is not part of the repository.
use audio_streaming_service.Common.{
  ℕ, ◌<◌, ◌*◌, ◌≡◌, ◌≢◌, [], ◌++◌, none, some, Bytes, codes, ok, pos,
}
use audio_streaming_service.Config.Environment.{Environment, Tag, required, defaulted, EnvPackage}
use audio_streaming_service.Std.Format.{decimal}

-- A variable that is set to a text gives the text; one that is
-- not set gives the default, or an error if it is required. Numbers are read from their decimal
-- texts, an int in 32 bits and an int64 in 64, and durations from a decimal text with a unit, in
-- nanoseconds and 64 bits.
pub record IsEnvPackage (pkg : EnvPackage) : Type 0 where
  pub set :
      (env : Environment) (tag : Tag) (v : Bytes)
      → env tag.name ≡ some v
      → v ≢ []
      → pkg.text_of env tag ≡ ok v
  pub unset :
      (env : Environment) (name v : Bytes)
      → env name ≡ none
      → pkg.text_of env (defaulted name v) ≡ ok v
  pub missing :
      (env : Environment) (name v : Bytes)
      → env name ≡ none
      → pkg.text_of env (required name) ≢ ok v
  pub int : (n : ℕ) → n < 2147483648 → pkg.parse_int (decimal n) ≡ ok (pos n)
  pub int64 : (n : ℕ) → n < 9223372036854775808 → pkg.parse_int64 (decimal n) ≡ ok n
  pub seconds :
      (n : ℕ)
      → n * 1000000000 < 9223372036854775808
      → pkg.parse_duration (decimal n ++ codes "s") ≡ ok (n * 1000000000)
  pub minutes :
      (n : ℕ)
      → n * 60000000000 < 9223372036854775808
      → pkg.parse_duration (decimal n ++ codes "m") ≡ ok (n * 60000000000)
