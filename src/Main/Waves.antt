-- ===== src/Main/Waves.antt =====
-- Who owns which waves, over the whole process.
use vender.Prelude.{ℕ, ◌≡◌, ◌≢◌, refl, false, Option, none, some, [], arith}
use vender.Exec.{Outcome, ok, err, panicked, out_of_fuel, with_drop}
use vender.Exec.Keeps.{Post, Triple, Triple-bind, Triple-with_drop, Keeps, Triple-after}
use vender.Ffi.{History, Hardware}
use vender.Ffi.Waves.{created, deleted}
use vender.Pigpio.Quiet.{Keeps-init}
use vender.Pigpio.Waves.{Owns, Owns-Quiet}
use vender.Mdb.{GpioMdb}
use vender.Mdb.Driver.{Env}
use vender.Mdb.Driver.Waves.{drop_mdb-Owns}
use vender.Server.{Server, new_server}
use vender.Server.Clean.{held}
use vender.Server.Run
use vender.Server.Run.{Protobuf, Wire}
use vender.Server.Run.Waves.{WireClean, Keeps-run}
use vender.Main.{exit_status, drop_driver, drop_server, with_server, run, main}

module _ (H : Hardware) (wave : ℕ) where
  -- A new server has no driver.
  Triple-new_server :
      Triple
        (Owns H wave 0)
        (new_server H false)
        (λ s h. Owns H wave (held wave s.mdb) h)
        (Owns H wave 0)
  unfolding new_server
  Triple-new_server =
      Triple-after _ _ _ _ (Keeps-init H _ (Owns-Quiet H wave 0) _) λ _. record { at = λ h p. p }

module _ (H : Hardware) (E : Env) (B : Protobuf) (fuel rounds wave : ℕ) where
  -- The drop of the server, at the end of `run`.
  drop_driver-Owns :
      (o : Option GpioMdb) (w : Wire B)
      → Owns H wave (held wave o) w.history
      → Owns H wave 0 (drop_driver H E B fuel rounds o w).1.history
  drop_driver-Owns none w h = h
  drop_driver-Owns (some m) w h = drop_mdb-Owns H wave 0 m w.history (omega (arith, h))

  drop_server-Owns :
      (w : Wire B)
      → WireClean H E B fuel wave w
      → Owns H wave 0 (drop_server H E B fuel rounds w).1.history
  unfolding drop_server
  drop_server-Owns w h = drop_driver-Owns w.server.mdb w h

  abbrev Freed : Wire B → Type 0
  Freed w = Owns H wave 0 w.history

  Post-history :
      (r : Outcome (Unit {0})) (w : Wire B)
      → Post (λ _. Freed) Freed r w
      → Post (λ _. Owns H wave 0) (Owns H wave 0) r w.history
  Post-history (ok _) w h = h
  Post-history (err _) w h = h
  Post-history panicked w h = h
  Post-history out_of_fuel w h = tt

  Triple-with_server :
      (input : B.Input) (output : B.Output) (server : Server)
      → Triple
          (Owns H wave (held wave server.mdb))
          (with_server H E B fuel rounds input output server)
          (λ _. Owns H wave 0)
          (Owns H wave 0)
  unfolding with_server
  Triple-with_server input output server = record {
    at = λ h owned.
        let w : Wire B = record { input = input; output = output; server = server; history = h } in
        let served = with_drop (drop_server H E B fuel rounds) (Run.run H E B fuel rounds) in
        Post-history (served w).0 (served w).1 (
          (Triple-with_drop (WireClean H E B fuel wave) Freed _ _ drop_server-Owns
              (Keeps-run H E B fuel wave rounds)).at
            w owned);
  }

  Keeps-main :
      (input : B.Input) (output : B.Output)
      → Keeps (Owns H wave 0) (run H E B fuel rounds input output)
  unfolding run
  Keeps-main input output =
      Triple-bind (Owns H wave 0) (λ s. Owns H wave (held wave s.mdb)) (λ _. Owns H wave 0)
        (Owns H wave 0) _ _ (Triple-new_server H wave)
        λ server. Triple-with_server input output server

  Post-ended :
      (r : Outcome (Unit {0})) (h : History)
      → Post (λ _. Owns H wave 0) (Owns H wave 0) r h
      → exit_status r ≢ none
      → created H wave h ≡ deleted wave h
  unfolding exit_status
  Post-ended (ok _) h owned ended = omega (arith, owned)
  Post-ended (err _) h owned ended = omega (arith, owned)
  Post-ended panicked h owned ended = omega (arith, owned)
  Post-ended out_of_fuel h owned ended = absurd (ended refl)

  -- If the process ends, whether it exits with 0, with 1 or by a panic, it has deleted each wave as
  -- often as it created it, whatever the hardware and the stream of requests do.
  pub main-frees :
      (input : B.Input) (output : B.Output)
      → (main H E B fuel rounds input output).0 ≢ none
      → let h = (main H E B fuel rounds input output).1 in created H wave h ≡ deleted wave h
  unfolding main created deleted
  main-frees input output ended =
      let m = run H E B fuel rounds input output in
      Post-ended (m []).0 (m []).1 ((Keeps-main input output).at [] (omega arith)) ended
