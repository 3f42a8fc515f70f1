-- ===== src/Tests/Live.antt =====
-- The theorems on hardware that works: words come in after 250 microseconds, and a wave is out
-- after 300; and on a bus that is always busy.
use vender.Prelude.{ℕ, ℤ, pos, ◌+◌, ◌%◌, ◌^◌, ◌<◌, ◌≡◌, refl, [], ◌∷◌, arith, leb, if◌then◌else◌}
use vender.Exec.{ok}
use vender.Ffi.{delay, serial_read, wave_tx_busy, History, Hardware}
use vender.Ffi.Clock.{Clock}
use vender.Pigpio.{from_id, wave_busy_wait}
use vender.Pigpio.Busy.{Delays, slept, PassedBy, wave_busy_wait-PassedBy}
use vender.Mdb.Bus.{mdb_wave_send_wait}
use vender.Mdb.Receive.{wait_receive}
use vender.Mdb.Live.{
  IsSound, IsHeardFrom, Heard, wait_receive-Heard, IsOutAfter, mdb_wave_send_wait-ok,
}
use vender.Tests.Bench.{elapsed}
use vender.Tests.Driver.{port}
use vender.Tests.Waiting.{elapsed_later, elapsed_bounded}

slow_code : History → ℤ
unfolding elapsed
slow_code (serial_read gpio size ∷ h) = if leb 250 (elapsed h) then pos 2 else pos 0
slow_code (wave_tx_busy ∷ h) = if leb 300 (elapsed h) then pos 0 else pos 1
slow_code _ = pos 0

slow_word : History → ℕ
unfolding elapsed
slow_word h = elapsed h % 2 ^ 32

slow : Hardware
unfolding slow_code slow_word
slow = record { code = slow_code; word = slow_word; stored = λ h. [] }

slow-Clock : Clock slow
unfolding slow slow_word elapsed
slow-Clock = record {
  now = elapsed;
  jitter = 0;
  now_later = elapsed_later;
  now_bounded = elapsed_bounded;
  tick_reads = λ h. refl;
}

slow_sound : IsSound slow
unfolding slow slow_code
slow_sound [] k e = ground arith
slow_sound (serial_read gpio size ∷ h) k e = ground arith
slow_sound (wave_tx_busy ∷ h) k e = ground arith
slow_sound (_ ∷ h) k e = ground arith

slow_heard : IsHeardFrom slow slow-Clock 250
unfolding slow slow-Clock slow_code elapsed
slow_heard gpio size h room late e = ground arith

slow_out : IsOutAfter slow slow-Clock 300 0
unfolding slow slow-Clock slow_code elapsed
slow_out h late e = ground arith

wait_receive-Heard_example :
    let (r, q) = wait_receive slow 1002 1000 port in
    Heard slow slow-Clock slow_sound 1000 101 (omega arith) r q
unfolding slow-Clock elapsed
wait_receive-Heard_example =
    wait_receive-Heard slow slow-Clock slow_sound 1000 101 (omega arith) 250 1002 port (omega arith)
      slow_heard (omega arith) refl (refl, omega arith, omega arith, omega arith)

mdb_wave_send_wait-ok_example :
    (mdb_wave_send_wait slow 1001 (from_id 0) 1000 101 "late" []).0 ≡ ok tt
unfolding slow-Clock elapsed
mdb_wave_send_wait-ok_example =
    mdb_wave_send_wait-ok slow slow-Clock slow_sound 1000 101 (omega arith) 300 1001 (from_id 0)
      "late" [] (omega arith) slow_out (omega arith) (omega arith)

-- A wave that is never out, and delays that are exact.
busy_code : History → ℤ
busy_code (wave_tx_busy ∷ h) = pos 1
busy_code _ = pos 0

exact_word : History → ℕ
exact_word (delay micros ∷ h) = micros
exact_word _ = 0

busy : Hardware
unfolding busy_code exact_word
busy = record { code = busy_code; word = exact_word; stored = λ h. [] }

busy-Delays : Delays busy
unfolding busy exact_word
busy-Delays = record { slack = 0; at_least = λ m h. omega arith; at_most = λ m h. omega arith }

busy_fits : 500 + 101 + busy-Delays.slack < 2 ^ 32
unfolding busy-Delays
busy_fits = omega arith

wave_busy_wait-PassedBy_example :
    let (r, q) = wave_busy_wait busy 501 101 500 "late" (delay 7 ∷ []) in
    PassedBy busy busy-Delays 101 500 7 "late" (omega arith) busy_fits r q
unfolding busy-Delays busy exact_word slept
wave_busy_wait-PassedBy_example =
    wave_busy_wait-PassedBy busy busy-Delays 101 500 7 "late" (omega arith) busy_fits 501
      (delay 7 ∷ []) refl (omega arith)
