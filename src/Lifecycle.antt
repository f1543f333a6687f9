-- ===== src/Lifecycle.antt =====
-- The hooks that the constructors append to the lifecycle of package fx.
use audio_streaming_service.Common.{ok, Exec}

-- `fx.Hook`; a function that is not given does nothing.
pub record Hook (W : Type 0) : Type 0 where
  pub on_start : Exec W (Unit {0})
  pub on_stop : Exec W (Unit {0})

abbrev pub nothing : {W : Type 0} → Exec W (Unit {0})
nothing w = (ok tt, w)
