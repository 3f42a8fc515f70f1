-- ===== src/Tests/Bench.antt =====
-- Hardware and a protobuf library to run the model on.
use vender.Prelude.{
  ℕ, suc, ◌+◌, ℤ, pos, ◌⊎◌, inl, inr, true, Option, none, some, List, [], ◌∷◌, ◌++◌, replicate,
  length, leb, if◌then◌else◌, arith,
}
use vender.Error.{Error, protobuf}
use vender.Ffi.{delay, serial_read, wave_create, History, Hardware}
use vender.Mdb.Driver.{Env}
use vender.Server.{Request, Response, Command, new_request}
use vender.Server.Run.{Protobuf}
use vender.Main.{main}
use vender.Exec.{Outcome, ◌>>=◌}
use vender.Server.{mdb_timeout, new_server, exec}
use vender.Pigpio.{
  init, check, new_serial, tick_since, add_u32, drop_wave, from_id, mul_u32, send, tx_busy,
}
use vender.Server.Run.{run, serve, serve_one}
use vender.Mdb.Driver.{new, make, bus_reset, close, drop_mdb}
use vender.Mdb.Bus.{mdb_wave_create, mdb_wave_send_wait, send_wait_loop}
use vender.Mdb.Transfer.{tx, encode, exchange, conclude, send_wait}
use vender.Mdb.Time.{duration_as_micros32, from_millis}
use vender.Mdb.Receive.Words.{Serial}
use vender.Mdb.Receive.{Port, get, read_serial, receive, scan_words, wait_receive}
use vender.Mdb.{checksum, block_max_length}
use vender.Error.{to_string}

-- How many waves have been created.
creations : History → ℕ
creations [] = 0
creations (wave_create ∷ h) = suc (creations h)
creations (_ ∷ h) = creations h

-- The bytes that a reader finds: a block of three words, of which the last has the ninth bit.
abbrev pub block : List ℕ
block = 0x10 ∷ 0 ∷ 0x20 ∷ 0 ∷ 0x30 ∷ 1 ∷ []

bench_code : History → ℤ
unfolding creations
bench_code [] = pos 0
bench_code (serial_read gpio size ∷ h) = if leb 6 size then pos 6 else pos 0
bench_code (wave_create ∷ h) = pos (creations h)
bench_code (_ ∷ h) = pos 0

bench_stored : History → List ℕ
bench_stored [] = []
bench_stored (serial_read gpio size ∷ h) = if leb 6 size then block else []
bench_stored (_ ∷ h) = []

-- The time is the sum of the delays.
unfoldable pub elapsed : History → ℕ
elapsed [] = 0
elapsed (delay micros ∷ h) = elapsed h + micros
elapsed (_ ∷ h) = elapsed h

-- Every call succeeds, waves have the ids 0, 1, ..., and every read that has room for it finds
-- `block`.
unfoldable pub bench : Hardware
unfolding bench_code bench_stored elapsed
bench = record { code = bench_code; word = elapsed; stored = bench_stored }

pub bench-Serial : Serial bench
unfolding bench bench_code bench_stored
bench-Serial = record {
  stored_count = λ gpio size h n e. ground arith;
  whole_words = λ gpio size h n e. ground arith;
  within = λ gpio size h n e. ground arith;
}

abbrev pub bench_env : Env
bench_env = record { variable = none; uninitialized = λ h. replicate 80 7; debug_enabled = true }

abbrev pub request : Command → ℕ → List ℕ → Request
request command arg_uint arg_bytes = record new_request {
  command = command;
  arg_uint = arg_uint;
  arg_bytes = arg_bytes;
}

-- Streams that are lists of whole messages.
abbrev pub read_length : List Request → (Error ⊎ ℕ) × List Request
read_length [] = (inl (protobuf "unexpected end of file"), [])
read_length (r ∷ rs) = (inr 4, r ∷ rs)

abbrev pub merge : Request → List Request → Option Error × Request × List Request
merge old [] = (some (protobuf "unexpected end of file"), old, [])
merge old (r ∷ rs) = (none, r, rs)

abbrev pub messages : Protobuf
messages = record {
  Input = List Request;
  Output = List Response;
  read_fixed32 = read_length;
  push_limit = λ limit i. (inr 0, i);
  merge_from = merge;
  pop_limit = λ limit i. i;
  compute_size = λ r. length r.data_bytes;
  write_fixed32 = λ n o. (none, o);
  write_to = λ r o. (none, o ++ (r ∷ []));
  flush = λ o. (none, o);
}

-- The process on the bench; proofs by evaluation unfold it.
unfoldable pub process : List Request → Option ℕ × History
unfolding bench main ◌>>=◌ new_server init check run serve serve_one exec new make mdb_wave_create
    new_serial tx encode exchange duration_as_micros32 tick_since mdb_wave_send_wait send_wait_loop
    bus_reset close drop_mdb get read_serial receive scan_words wait_receive from_millis conclude
    send_wait checksum add_u32 drop_wave from_id mul_u32 send tx_busy to_string
process requests = main bench bench_env messages 10 10 requests []

-- A transfer on the bench, likewise.
unfoldable pub transfer : List ℕ → Port → Outcome (List ℕ) × Port
unfolding bench ◌>>=◌ check new_serial tick_since mdb_wave_create mdb_wave_send_wait send_wait_loop
    tx encode exchange duration_as_micros32 get read_serial receive scan_words wait_receive conclude
    send_wait checksum add_u32 drop_wave from_id mul_u32 send tx_busy
transfer request p = tx bench 10 bench_env request [] block_max_length mdb_timeout p
