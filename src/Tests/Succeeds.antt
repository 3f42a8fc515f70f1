-- ===== src/Tests/Succeeds.antt =====
-- The theorems on requests that succeed, over a device that answers the first read.
use vender.Prelude.{
  ◌^◌, ◌≡◌, refl, sym, Bool, true, false, List, [], ◌∷◌, ◌++◌, arith, if◌then◌else◌,
}
use vender.Exec.Gives.{Gives, Yields}
use vender.Ffi.{serial_read, History}
use vender.Mdb.{block_max_length, checksum}
use vender.Mdb.Live.{IsSound}
use vender.Mdb.Live.Device.{Answering}
use vender.Mdb.Receive.{Port}
use vender.Mdb.Receive.Words.{Word, pairs, stream, scan}
use vender.Mdb.Transfer.{tx}
use vender.Mdb.Transfer.Gives.{Coming, Answer, IsPrompt, tx-Yields}
use vender.Mdb.Transfer.Judged.{judged}
use vender.Mdb.Driver.Parse.{parse_u32}
use vender.Mdb.Driver.Safe.{HasStep}
use vender.Server.{mdb_timeout, mdb_open, mdb_tx, Session, exec}
use vender.Server.Data.{fresh}
use vender.Server.Client.{BothServed, exec-serves_at_once}
use vender.Server.Opens.{Opened, exec-opens}
use vender.Server.Returns.{Answered, CanSend, exec-Returns}
use vender.Server.Serves.{opened, Answers, exec-serves}
use vender.Tests.Bench.{block, elapsed, bench_env, request}
use vender.Tests.Driver.{driver, port}
use vender.Tests.Returns.{
  once, once_code, once_stored, once-Clock, once-Serial, once_finite, unread,
}
use vender.Tests.Server.{bench-Sized, echoing, open_server}

-- The words of the block come in with the first read that has room for them.
once-stream : (h : History) → stream once h ≡ (if unread h then [] else pairs block)
unfolding stream once once_code once_stored unread pairs
once-stream [] = refl
once-stream (serial_read gpio size ∷ h) = ground (arith, once-stream h)
once-stream (_ ∷ h) = once-stream h

once_sound : IsSound once
unfolding once once_code
once_sound [] k e = ground arith
once_sound (serial_read gpio size ∷ h) k e = ground arith
once_sound (_ ∷ h) k e = ground arith

once_rest :
    (b : Bool) → (rest : List Word) × ((if b then [] else pairs block) ++ rest ≡ pairs block)
unfolding pairs
once_rest true = (pairs block, refl)
once_rest false = ([], refl)

once-Answering : Answering once once-Clock (pairs block) 0 0
unfolding once once_code
once-Answering = record {
  sound = once_sound;
  out = λ time h sent late. ground arith;
  sends = λ h. rw (once-stream h) (once_rest (unread h));
  comes = λ time gpio size h sent room late missing. ground (arith, once-stream h, missing, room);
}

once-Coming : Coming once (pairs block) [] (0x10 ∷ 0x20 ∷ []) 0x30 []
unfolding stream pairs scan
once-Coming = record { rest = pairs block; all = refl; found = refl }

once-Answer : Answer once (pairs block) [] (0x10 ∷ 0x20 ∷ []) []
unfolding stream pairs scan checksum
once-Answer = record { end_byte = 0x30; coming = once-Coming; closes = refl }

once-IsPrompt : IsPrompt 0 0 0 101 3 0 mdb_timeout
once-IsPrompt = record {
  room = omega arith;
  out = omega arith;
  out_ack = omega arith;
  answered = omega arith;
  received = omega arith;
}

tx-Yields_example :
    (q : Port) × Yields
      (tx once (2 ^ 32) bench_env (1 ∷ 2 ∷ []) [] block_max_length mdb_timeout)
      port
      (judged 0x30 (0x10 ∷ 0x20 ∷ []))
      q
unfolding once-Clock elapsed once-Coming pairs
tx-Yields_example =
    tx-Yields once once-Clock once-Serial (pairs block) 0 0 once-Answering 101 (omega arith)
      (2 ^ 32) (omega arith) bench_env (1 ∷ 2 ∷ []) [] (0x10 ∷ 0x20 ∷ []) mdb_timeout
      block_max_length 0x30 port once-Coming (omega arith) (omega arith) (omega arith) refl refl
      (omega arith) once-IsPrompt

exec-serves_example :
    Answers
      (exec once bench_env (2 ^ 32) (request mdb_tx 0 (1 ∷ 2 ∷ [])))
      true
      driver
      []
      (judged 0x30 (0x10 ∷ 0x20 ∷ []))
unfolding once-Clock elapsed once-Coming pairs
exec-serves_example =
    exec-serves once once-Clock once-Serial (pairs block) 0 0 once-Answering 101 (2 ^ 32) bench_env
      (request mdb_tx 0 (1 ∷ 2 ∷ [])) true driver [] (0x10 ∷ 0x20 ∷ []) 0x30 once-Coming
      (omega arith) (omega arith) refl (omega arith) (omega arith) refl refl (omega arith)
      once-IsPrompt

bench_step : HasStep bench_env
unfolding parse_u32
bench_step = (101, refl)

exec-opens_example :
    (s : Session) × Gives
      (exec once bench_env 10 (request mdb_open 0 (15 ∷ 14 ∷ [])))
      (fresh echoing [])
      tt
      s
    × Opened once once-Clock bench_env once_sound bench-Sized 10 15 14 echoing 101 [] s
unfolding bench_step
exec-opens_example =
    exec-opens once once-Clock bench_env once_sound bench-Sized 10 15 14 echoing bench_step
      (request mdb_open 0 (15 ∷ 14 ∷ [])) [] refl refl

once-CanSend :
    CanSend once once-Clock once-Serial 101
      (omega arith)
      (2 ^ 32)
      (omega arith)
      3
      once_finite
      (omega arith)
      (request mdb_tx 0 (1 ∷ 2 ∷ []))
      (opened true driver)
      []
unfolding once-Clock elapsed
once-CanSend = record {
  some_bytes = omega arith;
  short = omega arith;
  ready = λ m is_open. let same : driver ≡ m = cc in rw (sym same) (refl, refl);
  room = omega arith;
}

exec-Returns_example :
    let (r, s) =
      exec once bench_env
        (2 ^ 32)
        (request mdb_tx 0 (1 ∷ 2 ∷ []))
        (fresh (opened true driver) []) in
    Answered r s
exec-Returns_example =
    exec-Returns once once-Clock once-Serial 101 (omega arith) (2 ^ 32) (omega arith) 3 once_finite
      (omega arith) bench_env (request mdb_tx 0 (1 ∷ 2 ∷ [])) (opened true driver) []
      (λ e. absurd cc) (λ e. once-CanSend)

exec-serves_at_once_example :
    BothServed once bench_env
      (2 ^ 32)
      (request mdb_open 0 (15 ∷ 14 ∷ []))
      (request mdb_tx 0 (1 ∷ 2 ∷ []))
      (0x10 ∷ 0x20 ∷ [])
      (fresh open_server [])
unfolding once-Clock elapsed once-Answer once-Coming pairs bench_step
exec-serves_at_once_example =
    exec-serves_at_once once once-Clock once-Serial (pairs block) 0 0 once-Answering (2 ^ 32)
      bench_env bench-Sized bench_step 15 14 open_server (request mdb_open 0 (15 ∷ 14 ∷ []))
      (request mdb_tx 0 (1 ∷ 2 ∷ [])) [] (0x10 ∷ 0x20 ∷ []) once-Answer (omega arith) (omega arith)
      refl refl refl refl (omega arith) (omega arith) (omega arith) once-IsPrompt once-IsPrompt
