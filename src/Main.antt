-- ===== src/Main.antt =====
-- `run` and `main` of cmd/iodin/src/main.rs: one server over standard input and output, and the
-- exit status of the process. What is logged is left out.
pub mod Waves
pub mod Exit
use vender.Prelude.{ℕ, false, [], Option, none, some}
use vender.Exec.{Outcome, Exec, ok, err, panicked, out_of_fuel, with_drop, ◌>>=◌}
use vender.Ffi.{History, Hardware}
use vender.Mdb.{GpioMdb}
use vender.Mdb.Driver.{Env, drop_mdb}
use vender.Server.{Server, new_server}
use vender.Server.Run
use vender.Server.Run.{Protobuf, Wire}

-- How a process ends. An unwound panic of the main thread gives 101.
unfoldable pub exit_status : Outcome (Unit {0}) → Option ℕ
exit_status (ok _) = some 0
exit_status (err _) = some 1
exit_status panicked = some 101
exit_status out_of_fuel = none

module _ (H : Hardware) (E : Env) (B : Protobuf) (fuel rounds : ℕ) where
  -- The server of `run` is a temporary, dropped when the statement ends.
  abbrev pub drop_driver : Option GpioMdb → Exec (Wire B) (Unit {0})
  drop_driver none w = (ok tt, w)
  drop_driver (some m) w = let (r, h) = drop_mdb H m w.history in (r, record w { history = h })

  unfoldable pub drop_server : Exec (Wire B) (Unit {0})
  drop_server w = drop_driver w.server.mdb w

  unfoldable pub with_server :
      (input : B.Input) (output : B.Output) → Server → History → Outcome (Unit {0}) × History
  unfolding drop_server
  with_server input output server h =
      let (r, w) =
        with_drop drop_server (Run.run H E B fuel rounds)
          (record { input = input; output = output; server = server; history = h }) in
      (r, w.history)

  unfoldable pub run : (input : B.Input) (output : B.Output) → Exec History (Unit {0})
  unfolding with_server
  run input output = do server ← new_server H false; with_server input output server

  unfoldable pub main : (input : B.Input) (output : B.Output) → Option ℕ × History
  unfolding run exit_status
  main input output = let (r, h) = run input output [] in (exit_status r, h)
