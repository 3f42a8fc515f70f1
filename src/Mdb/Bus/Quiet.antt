-- ===== src/Mdb/Bus/Quiet.antt =====
-- Rules for sending a wave.
use vender.Prelude.{◌∷◌, ℕ, zero, suc, String, ltb}
use vender.Error.{msg}
use vender.Exec.{◌>>=◌}
use vender.Exec.Keeps.{
  Keeps, keeps_rules, Keeps-stuck, Keeps-bind, Keeps-if, Keeps-pure, Keeps-fail,
}
use vender.Ffi.{Call, delay, tick, wave_tx_busy, invoke_word, History, Hardware}
use vender.Pigpio.{Wave, tick_since, tx_busy}
use vender.Pigpio.Quiet.{Quiet, Keeps-check, Keeps-invoke, Keeps-tick_since, Keeps-send}
use vender.Mdb.Bus.{send_wait_loop, mdb_wave_send_wait}

-- The calls of the loop that waits for a wave.
abbrev pub Looks : Call → Type 0
Looks (delay micros) = Unit
Looks wave_tx_busy = Unit
Looks tick = Unit
Looks _ = ⊥

-- An invariant that looking keeps.
pub record Looking (P : History → Type 0) : Type 0 where
  pub keeps : (c : Call) (h : History) → Looks c → P h → P (c ∷ h)

module _ (H : Hardware) (P : History → Type 0) (l : Looking P) where
  Keeps-delay : (micros : ℕ) → Keeps P (invoke_word H (delay micros))
  Keeps-delay micros = record { at = λ h p. l.keeps (delay micros) h tt p }

  pub Keeps-tick : (start : ℕ) → Keeps P (tick_since H start)
  unfolding tick_since ◌>>=◌
  Keeps-tick start = record { at = λ h p. l.keeps tick h tt p }

  Keeps-look : Keeps P (tx_busy H)
  unfolding tx_busy
  Keeps-look =
      Keeps-bind _ _ _ (record { at = λ h p. l.keeps wave_tx_busy h tt p })
        λ rc. Keeps-bind _ _ _ (Keeps-check P rc) λ n. Keeps-pure _ _

  pub Keeps-send_wait_loop :
      (fuel start deadline wait_step : ℕ) (e : String)
      → Keeps P (send_wait_loop H fuel start deadline wait_step e)
  unfolding send_wait_loop
  Keeps-send_wait_loop zero start deadline wait_step e = Keeps-stuck _
  Keeps-send_wait_loop (suc fuel) start deadline wait_step e = Keeps-bind _ _ _ (Keeps-delay _) λ _.
      Keeps-bind _ _ _ Keeps-look λ busy.
        Keeps-if _ busy _ _
          (Keeps-bind _ _ _ (Keeps-tick start) λ total.
            Keeps-if _ (ltb deadline total) _ _ (Keeps-fail _ (msg e))
              (Keeps-send_wait_loop fuel start deadline wait_step e))
          (Keeps-pure _ _)

Quiet-keeps_looks :
    (P : History → Type 0) (q : Quiet P) (c : Call) (h : History) → Looks c → P h → P (c ∷ h)
Quiet-keeps_looks P q (delay micros) h n p = q.keeps (delay micros) h tt p
Quiet-keeps_looks P q wave_tx_busy h n p = q.keeps wave_tx_busy h tt p
Quiet-keeps_looks P q tick h n p = q.keeps tick h tt p
Quiet-keeps_looks P q _ h n p = elim n [ ]

Quiet-Looking : (P : History → Type 0) → Quiet P → Looking P
Quiet-Looking P q = record { keeps = Quiet-keeps_looks P q }

module _ (H : Hardware) (P : History → Type 0) (q : Quiet P) where
  Keeps-wave_out :
      (fuel start deadline wait_step : ℕ) (e : String)
      → Keeps P (send_wait_loop H fuel start deadline wait_step e)
  Keeps-wave_out = Keeps-send_wait_loop H P (Quiet-Looking P q)

  pub Keeps-send_wait :
      (fuel : ℕ) (w : Wave) (deadline wait_step : ℕ) (e : String)
      → Keeps P (mdb_wave_send_wait H fuel w deadline wait_step e)
  unfolding mdb_wave_send_wait
  Keeps-send_wait fuel w deadline wait_step e =
      search (keeps_rules, Keeps-invoke, Keeps-check, Keeps-tick_since, Keeps-send, Keeps-wave_out)
        depth 8
