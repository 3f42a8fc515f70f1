-- ===== src/Pigpio/Quiet.antt =====
-- Rules for the wrappers that only wait, measure or send: an invariant of the history that no such
-- call can break is kept by each of them.
use vender.Prelude.{ℕ, ℤ, pos, negsuc, ◌∷◌}
use vender.Exec.Keeps.{Keeps, Keeps-pure, keeps_rules}
use vender.Ffi.{Call, wave_create, wave_delete, serial_read, History, Hardware, invoke, invoke_word}
use vender.Pigpio.{Wave, check, add_u32, mul_u32, init, tx_busy, tick_since, send}

-- A call that neither makes or deletes a wave nor reads from the bus.
abbrev pub IsQuiet : Call → Type 0
IsQuiet wave_create = ⊥
IsQuiet (wave_delete id) = ⊥
IsQuiet (serial_read gpio size) = ⊥
IsQuiet _ = Unit

-- An invariant that quiet calls keep.
pub record Quiet (P : History → Type 0) : Type 0 where
  pub keeps : (c : Call) (h : History) → IsQuiet c → P h → P (c ∷ h)

-- The proof of `IsQuiet` of such a call, for the lists of `search`.
abbrev pub quiet : Unit {0}
quiet = tt

module _ {S : Type 0} (P : S → Type 0) where
  pub Keeps-check : (rc : ℤ) → Keeps P (check rc)
  unfolding check
  Keeps-check (pos n) = Keeps-pure P n
  Keeps-check (negsuc n) = record { at = λ s h. h }

  pub Keeps-add_u32 : (a b : ℕ) → Keeps P (add_u32 a b)
  unfolding add_u32
  Keeps-add_u32 a b = search keeps_rules

  pub Keeps-mul_u32 : (a b : ℕ) → Keeps P (mul_u32 a b)
  unfolding mul_u32
  Keeps-mul_u32 a b = search keeps_rules

module _ (H : Hardware) (P : History → Type 0) (q : Quiet P) where
  pub Keeps-invoke : (c : Call) → IsQuiet c → Keeps P (invoke H c)
  Keeps-invoke c n = record { at = λ h p. q.keeps c h n p }

  pub Keeps-invoke_word : (c : Call) → IsQuiet c → Keeps P (invoke_word H c)
  Keeps-invoke_word c n = record { at = λ h p. q.keeps c h n p }

  pub Keeps-init : (flags : ℕ) → Keeps P (init H flags)
  unfolding init
  Keeps-init flags = search (keeps_rules, Keeps-invoke, Keeps-check, quiet) depth 8

  pub Keeps-tick_since : (start : ℕ) → Keeps P (tick_since H start)
  unfolding tick_since
  Keeps-tick_since start = search (keeps_rules, Keeps-invoke_word, quiet)

  pub Keeps-tx_busy : Keeps P (tx_busy H)
  unfolding tx_busy
  Keeps-tx_busy = search (keeps_rules, Keeps-check, Keeps-invoke, quiet)

  pub Keeps-send : (w : Wave) (mode : ℕ) → Keeps P (send H w mode)
  unfolding send
  Keeps-send w mode = search (keeps_rules, Keeps-check, Keeps-invoke, quiet)
