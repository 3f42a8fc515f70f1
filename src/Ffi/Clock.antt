-- ===== src/Ffi/Clock.antt =====
-- What pigpio documents of time: `gpioTick` is the number of microseconds since boot, which wraps
-- at 2 ^ 32, and `gpioDelay` waits for at least the time that it is given.
use vender.Prelude.{ℕ, ◌+◌, ◌%◌, ◌^◌, ◌≤◌, ◌≡◌, ◌∷◌}
use vender.Ffi.{Call, tick, delay, History, Hardware}

-- The time that a call asks to wait.
abbrev pub duration : Call → ℕ
duration (delay micros) = micros
duration tick = 0
duration _ = 0

-- Beyond what it asks to wait, a call takes at most `jitter` microseconds.
pub record Clock (H : Hardware) : Type 0 where
  pub now : History → ℕ
  pub jitter : ℕ
  pub now_later : (c : Call) (h : History) → now h + duration c ≤ now (c ∷ h)
  pub now_bounded : (c : Call) (h : History) → now (c ∷ h) ≤ now h + duration c + jitter
  pub tick_reads : (h : History) → H.word (tick ∷ h) ≡ now (tick ∷ h) % 2 ^ 32
