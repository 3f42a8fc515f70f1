-- ===== src/Mdb/Bus.antt =====
-- `mdb_wave_create` and `mdb_wave_send_wait`.
pub mod Quiet
pub mod Deadline
pub mod Total
use vender.Prelude.{ℕ, zero, suc, Bool, String, List, ltb, if◌then◌else◌}
use vender.Error.{msg}
use vender.Exec.{Exec, pure, fail, stuck, ◌>>=◌, ◌>>◌}
use vender.Ffi.{
  delay, wave_tx_stop, History, Hardware, invoke, invoke_word, pi_wave_mode_one_shot_sync,
}
use vender.Pigpio.{Wave, check, tx_busy, tick_since, new_serial, send}
use vender.Mdb.{baud, data_bits, stop_bits}

module _ (H : Hardware) where
  unfoldable pub mdb_wave_create : (pin : ℕ) → List ℕ → Exec History Wave
  mdb_wave_create pin s = new_serial H pin baud data_bits stop_bits 0 s

  -- The loop, until the wave is out or the time since `start` is past `deadline`.
  unfoldable pub send_wait_loop :
      (fuel start deadline wait_step : ℕ) → String → Exec History (Unit {0})
  send_wait_loop zero start deadline wait_step e = stuck
  send_wait_loop (suc fuel) start deadline wait_step e = do
    invoke_word H (delay wait_step)
    busy ← tx_busy H
    if busy
        then (do
          total ← tick_since H start
          if ltb deadline total
              then fail (msg e)
              else send_wait_loop fuel start deadline wait_step e)
        else pure tt

  unfoldable pub mdb_wave_send_wait :
      (fuel : ℕ) → Wave → (deadline wait_step : ℕ) → String → Exec History (Unit {0})
  mdb_wave_send_wait fuel w deadline wait_step e = do
    start ← tick_since H 0
    send H w pi_wave_mode_one_shot_sync
    send_wait_loop fuel start deadline wait_step e
    check (← invoke H wave_tx_stop)
    pure tt
