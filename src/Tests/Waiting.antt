-- ===== src/Tests/Waiting.antt =====
-- The theorems on waiting at a clock that counts the delays, over a bus that stays idle.
use vender.Prelude.{ℕ, ℤ, pos, ◌+◌, ◌%◌, ◌^◌, ◌≤◌, refl, [], ◌∷◌, arith}
use vender.Ffi.{Call, delay, wave_tx_busy, History, Hardware}
use vender.Ffi.Clock.{Clock, duration}
use vender.Mdb.Bus.{send_wait_loop}
use vender.Mdb.Bus.Deadline.{OutInTime, send_wait_loop-OutInTime}
use vender.Mdb.Receive.{wait_receive}
use vender.Mdb.Receive.Wait.{InTime, wait_receive-InTime}
use vender.Tests.Bench.{elapsed}
use vender.Tests.Driver.{port}

idle_code : History → ℤ
idle_code (wave_tx_busy ∷ h) = pos 1
idle_code _ = pos 0

idle_word : History → ℕ
unfolding elapsed
idle_word h = elapsed h % 2 ^ 32

-- Every wave stays busy, and no word comes in.
idle : Hardware
unfolding idle_code idle_word
idle = record { code = idle_code; word = idle_word; stored = λ h. [] }

pub elapsed_later : (c : Call) (h : History) → elapsed h + duration c ≤ elapsed (c ∷ h)
unfolding elapsed
elapsed_later (delay micros) h = omega arith
elapsed_later _ h = omega arith

pub elapsed_bounded : (c : Call) (h : History) → elapsed (c ∷ h) ≤ elapsed h + duration c + 0
unfolding elapsed
elapsed_bounded (delay micros) h = omega arith
elapsed_bounded _ h = omega arith

idle-Clock : Clock idle
unfolding idle elapsed
idle-Clock = record {
  now = elapsed;
  jitter = 0;
  now_later = elapsed_later;
  now_bounded = elapsed_bounded;
  tick_reads = λ h. refl;
}

wait_receive-InTime_example :
    let (r, q) = wait_receive idle 1002 1000 port in InTime idle idle-Clock 1000 101 r q
unfolding idle-Clock elapsed
wait_receive-InTime_example =
    wait_receive-InTime idle idle-Clock 1000 101 (omega arith) (omega arith) 1002 port
      (refl, omega arith, omega arith, omega arith)

send_wait_loop-OutInTime_example :
    let (r, h) = send_wait_loop idle 501 (0 % 2 ^ 32) 500 101 "late" [] in
    OutInTime idle idle-Clock 0 500 101 r h
unfolding idle-Clock elapsed
send_wait_loop-OutInTime_example =
    send_wait_loop-OutInTime idle idle-Clock 0 500 101 "late" (omega arith) (omega arith) 501 []
      (omega arith, omega arith, omega arith)
