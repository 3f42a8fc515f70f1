-- ===== src/Mdb/Driver/Safe.antt =====
-- The driver's operations that wait for nothing: they do not panic.
use vender.Prelude.{ℕ, ℤ, pos, negsuc, ◌≡◌, some, List, arith}
use vender.Exec.{◌>>=◌}
use vender.Exec.Safe.{IsSafe, safe_rules}
use vender.Ffi.{Call, Hardware, invoke, invoke_word}
use vender.Pigpio.{check, new_serial}
use vender.Mdb.{GpioMdb}
use vender.Mdb.Time.{Duration, duration_as_micros32}
use vender.Mdb.Bus.{mdb_wave_create}
use vender.Mdb.Driver.{Env, wait_step_or_default, make, new, bus_reset}
use vender.Mdb.Driver.Parse.{parse_u32}

module _ (H : Hardware) where
  IsSafe-invoke : (c : Call) → IsSafe (invoke H c)
  IsSafe-invoke c = record { at = λ h. tt }

  IsSafe-invoke_word : (c : Call) → IsSafe (invoke_word H c)
  IsSafe-invoke_word c = record { at = λ h. tt }

IsSafe-check : {S : Type 0} (z : ℤ) → IsSafe {S = S} (check z)
unfolding check
IsSafe-check (pos n) = record { at = λ s. tt }
IsSafe-check (negsuc n) = record { at = λ s. tt }

IsSafe-duration : {S : Type 0} (d : Duration) → IsSafe {S = S} (duration_as_micros32 d)
unfolding duration_as_micros32 ◌>>=◌
IsSafe-duration d = record { at = λ s. ground arith }

-- A wait step that can be read.
abbrev pub HasStep : Env → Type 0
HasStep E = (step : ℕ) × (parse_u32 (wait_step_or_default E.variable) ≡ some step)

ruleset call_rules = (safe_rules, IsSafe-invoke, IsSafe-invoke_word, IsSafe-check, IsSafe-duration)

module _ (H : Hardware) where
  IsSafe-mdb_wave_create : (pin : ℕ) (s : List ℕ) → IsSafe (mdb_wave_create H pin s)
  unfolding mdb_wave_create new_serial
  IsSafe-mdb_wave_create pin s = search call_rules depth 8

  pub IsSafe-bus_reset : (m : GpioMdb) (d : Duration) → IsSafe (bus_reset H m d)
  unfolding bus_reset
  IsSafe-bus_reset m d = search call_rules depth 8

  IsSafe-make : (E : Env) (wait_step rx tx : ℕ) → IsSafe (make H E wait_step rx tx)
  unfolding make
  IsSafe-make E wait_step rx tx = search (call_rules, IsSafe-mdb_wave_create) depth 8

  pub IsSafe-new : (E : Env) (rx tx : ℕ) → HasStep E → IsSafe (new H E rx tx)
  unfolding new
  IsSafe-new E rx tx (step, parsed) = rw parsed (search (call_rules, IsSafe-make) depth 10)
