-- ===== src/Tests/Driver.antt =====
-- The theorems on the driver at concrete inputs.
use vender.Prelude.{inl, ◌+◌, ◌%◌, ◌≡◌, ◌≢◌, refl, [], ◌∷◌, ◌++◌, replicate, arith}
use vender.Exec.{ok, panicked}
use vender.Exec.Keeps.{Post, Anything}
use vender.Ffi.{serial_read}
use vender.Ffi.Waves.{created, deleted}
use vender.Pigpio.{from_id}
use vender.Pigpio.Waves.{Owns}
use vender.Mdb.{GpioMdb, checksum, block_max_length}
use vender.Mdb.Time.{from_millis, duration_as_micros32, duration_as_micros32_exact}
use vender.Mdb.Checksum.{checksum-append, checksum_detects}
use vender.Mdb.Driver.{new, bus_reset}
use vender.Mdb.Driver.Calls.{HasCalled, new-HasCalled}
use vender.Mdb.Driver.Reset.{Pulsed, bus_reset-Pulsed}
use vender.Mdb.Receive.{Port, receive, scan_words}
use vender.Mdb.Receive.Words.{scan, words_at, pairs, scan_words-eq-scan, stream}
use vender.Mdb.Receive.Waves.{PortOwns, without_buf}
use vender.Mdb.Receive.Stream.{Block, Chunk, receive-Block}
use vender.Mdb.Transfer.{conclude, tx}
use vender.Mdb.Transfer.Answers.{Answered, conclude-Answered}
use vender.Mdb.Transfer.Frame.{Framed, encode_frame}
use vender.Mdb.Transfer.Limits.{tx_refuses}
use vender.Mdb.Transfer.Sends.{Sent, SentSome, tx-Sent}
use vender.Mdb.Transfer.Waves.{tx-PortOwns}
use vender.Mdb.Transfer.Correct.{Delivered, tx-Delivered}
use vender.Server.{mdb_timeout}
use vender.Tests.Bench.{bench, bench-Serial, bench_env, block, transfer}

abbrev pub driver : GpioMdb
driver = record {
  rx_pin = 15;
  tx_pin = 14;
  wave_ack = from_id 0;
  wave_nak = from_id 1;
  wait_step = 101;
  buf = replicate 80 7;
}

abbrev pub port : Port
port = record { mdb = driver; history = [] }

nothing_owned : Owns bench 2 0 []
unfolding created deleted
nothing_owned = refl

-- A transfer on the bench returns the bytes of the block.
transfer_returns : (transfer (1 ∷ 2 ∷ []) port).0 ≡ ok (0x10 ∷ 0x20 ∷ [])
unfolding transfer
transfer_returns = refl

tx-Delivered_example :
    let (r, q) = tx bench 10 bench_env (1 ∷ 2 ∷ []) [] block_max_length mdb_timeout port in
    Post (Delivered bench bench-Serial (stream bench []) []) Anything r q
tx-Delivered_example =
    tx-Delivered bench bench-Serial 10 bench_env (1 ∷ 2 ∷ []) [] block_max_length mdb_timeout port
      refl

tx-PortOwns_example :
    let (r, q) = tx bench 10 bench_env (1 ∷ 2 ∷ []) [] block_max_length mdb_timeout port in
    Post
      (λ _. PortOwns (without_buf driver) bench 2 0)
      (PortOwns (without_buf driver) bench 2 0)
      r
      q
tx-PortOwns_example =
    tx-PortOwns bench 2 0 10 bench_env (1 ∷ 2 ∷ []) [] block_max_length mdb_timeout port
      nothing_owned

-- The port after a read of the block.
abbrev pub read_port : Port
read_port = record {
  mdb = record driver { buf = block ++ replicate 74 7 };
  history = serial_read 15 80 ∷ [];
}

block_came : Chunk bench bench-Serial [] 6 read_port
unfolding stream words_at pairs bench
block_came = (refl, refl, omega arith)

receive-Block_example :
    let (r, q) = receive bench 5 5 1000 6 [] read_port in
    Post (Block bench bench-Serial [] []) Anything r q
receive-Block_example = receive-Block bench bench-Serial 5 5 1000 6 [] [] read_port block_came

scan_words-eq-scan_example :
    scan_words 3 0 [] read_port ≡ (ok (scan (words_at 3 0 read_port.mdb.buf) []), read_port)
scan_words-eq-scan_example = scan_words-eq-scan 3 0 [] read_port (omega arith)

duration_as_micros32_exact_example : duration_as_micros32 mdb_timeout port ≡ (ok 300_000, port)
duration_as_micros32_exact_example = duration_as_micros32_exact mdb_timeout port

checksum-append_example :
    checksum ((200 ∷ 100 ∷ []) ++ 7 ∷ []) ≡ (checksum (200 ∷ 100 ∷ []) + checksum (7 ∷ [])) % 256
checksum-append_example = checksum-append (200 ∷ 100 ∷ []) (7 ∷ [])

checksum_detects_example : checksum (1 ∷ 5 ∷ 2 ∷ []) ≢ checksum (1 ∷ 9 ∷ 2 ∷ [])
checksum_detects_example =
    checksum_detects (1 ∷ []) (2 ∷ []) 5 9 (omega arith) (omega arith) (omega arith)

encode_frame_example : Framed (1 ∷ 2 ∷ []) port
encode_frame_example = encode_frame (1 ∷ 2 ∷ []) port refl (omega arith)

tx_refuses_example :
    tx bench 10 bench_env [] [] block_max_length mdb_timeout port ≡ (panicked, port)
tx_refuses_example =
    tx_refuses bench 10 bench_env [] [] block_max_length mdb_timeout port (inl refl)

conclude-Answered_example :
    let (r, q) = conclude bench 10 1000 0x31 (0x10 ∷ 0x20 ∷ []) port in
    Answered bench 10 0x31 (0x10 ∷ 0x20 ∷ []) port r q
conclude-Answered_example = conclude-Answered bench 10 1000 0x31 0x10 (0x20 ∷ []) port

bus_reset-Pulsed_example :
    let (r, h) = bus_reset bench driver (from_millis 100) [] in
    Pulsed bench driver (from_millis 100) [] r h
bus_reset-Pulsed_example = bus_reset-Pulsed bench driver (from_millis 100) []

tx-Sent_example :
    let (r, q) = tx bench 10 bench_env (1 ∷ 2 ∷ []) [] block_max_length mdb_timeout port in
    Post (Sent bench 10 (1 ∷ 2 ∷ []) port) (SentSome bench 10 (1 ∷ 2 ∷ []) port) r q
tx-Sent_example = tx-Sent bench 10 bench_env (1 ∷ 2 ∷ []) [] block_max_length mdb_timeout port

new-HasCalled_example :
    let (r, h) = new bench bench_env 15 14 [] in HasCalled bench bench_env 15 14 [] r h
new-HasCalled_example = new-HasCalled bench bench_env 15 14 []
