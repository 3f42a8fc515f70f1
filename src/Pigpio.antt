-- ===== src/Pigpio.antt =====
-- hardware/pigpio-rust/src/lib.rs: the checked wrappers over the C library.
pub mod Quiet
pub mod Waves
pub mod Status
pub mod Busy
use vender.Prelude.{
  ℕ, zero, suc, ℤ, pos, negsuc, ◌+◌, ◌-◌, ◌*◌, ◌%◌, ◌^◌, Bool, String, ◌<>◌, List, show_ℤ, ltb,
  ◌==◌, if◌then◌else◌,
}
use vender.Error.{io_error, IoKind}
use vender.Exec.{Exec, pure, fail, panic, stuck, ◌>>=◌, ◌>>◌, assert}
use vender.Ffi.{
  cfg_interfaces, initialise, tick, delay, wave_add_new, wave_add_serial, wave_create, wave_delete,
  wave_tx_busy, wave_tx_send, History, Hardware, invoke, invoke_word,
}

abbrev pub u32_mod : ℕ
u32_mod = 2 ^ 32

-- A negative status is an error, any other a count.
unfoldable pub check : {S : Type 0} → ℤ → Exec S ℕ
unfolding show_ℤ
check (pos n) = pure n
check (negsuc n) = fail (io_error IoKind.other ("pigpio err=" <> show_ℤ (negsuc n)))

-- `+` on `u32`: every profile of Cargo.toml has `overflow-checks = true`.
unfoldable pub add_u32 : {S : Type 0} → ℕ → ℕ → Exec S ℕ
add_u32 a b = if ltb (a + b) u32_mod then pure (a + b) else panic

-- `*` on `u32`, checked likewise.
unfoldable pub mul_u32 : {S : Type 0} → ℕ → ℕ → Exec S ℕ
mul_u32 a b = if ltb (a * b) u32_mod then pure (a * b) else panic

-- `u32::wrapping_sub`
unfoldable pub wrapping_sub : ℕ → ℕ → ℕ
wrapping_sub a b = (a + u32_mod - b) % u32_mod

-- A tuple struct in the source: the id of a wave that the C library holds.
pub record Wave : Type 0 where
  pub id : ℕ

unfoldable pub from_id : ℕ → Wave
from_id id = record { id = id }

module _ (H : Hardware) where
  unfoldable pub init : ℕ → Exec History (Unit {0})
  init flag_interfaces = do
    check (← invoke H (cfg_interfaces flag_interfaces))
    check (← invoke H initialise)
    pure tt

  unfoldable pub tx_busy : Exec History Bool
  tx_busy = do rc ← invoke H wave_tx_busy; n ← check rc; pure (n == 1)

  unfoldable pub tick_since : ℕ → Exec History ℕ
  unfolding wrapping_sub
  tick_since start = do end ← invoke_word H tick; pure (wrapping_sub end start)

  -- The loop of `wave_busy_wait`, with the total time so far.
  unfoldable pub busy_wait_loop :
      (fuel delay_step timeout : ℕ) → String → (total : ℕ) → Exec History ℕ
  busy_wait_loop zero delay_step timeout e total = stuck
  busy_wait_loop (suc fuel) delay_step timeout e total = do
    d ← invoke_word H (delay delay_step)
    total' ← add_u32 total d
    busy ← tx_busy
    if busy
        then (if ltb timeout total'
            then fail (io_error IoKind.timed_out e)
            else busy_wait_loop fuel delay_step timeout e total')
        else pure total'

  unfoldable pub wave_busy_wait : (fuel delay_step timeout : ℕ) → String → Exec History ℕ
  unfolding busy_wait_loop
  wave_busy_wait fuel delay_step timeout e = busy_wait_loop fuel delay_step timeout e 0

  unfoldable pub new_serial : (tx baud data_bits stop_bits offset : ℕ) → List ℕ → Exec History Wave
  new_serial tx baud data_bits stop_bits offset s = do
    check (← invoke H wave_add_new)
    check (← invoke H (wave_add_serial tx baud data_bits stop_bits offset s))
    wid ← check (← invoke H wave_create)
    pure (from_id wid)

  unfoldable pub send : Wave → ℕ → Exec History (Unit {0})
  send w mode = do check (← invoke H (wave_tx_send w.id mode)); pure tt

  -- `Drop for Wave`: the status is ignored.
  unfoldable pub drop_wave : Wave → Exec History ℤ
  drop_wave w = invoke H (wave_delete w.id)
