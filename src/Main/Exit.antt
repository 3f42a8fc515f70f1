-- ===== src/Main/Exit.antt =====
-- The exit status of the process, by how its conversation ends.
use vender.Prelude.{
  ℕ, ◌<◌, ◌≡◌, ◌≢◌, refl, ap, ◌∙◌, ◌⊎◌, inl, inr, true, false, Option, none, some, [], length,
  arith,
}
use vender.Error.{Error}
use vender.Exec.{Outcome, ok, err, panicked, out_of_fuel, continue, finalize, ◌>>=◌}
use vender.Ffi.{History, Hardware}
use vender.Pigpio.{init, check}
use vender.Mdb.Driver.{Env}
use vender.Server.{Server, new_server}
use vender.Server.Run
use vender.Server.Run.{Protobuf, Wire}
use vender.Server.Run.Talk.{
  Framing, Ending, stopped, input_ended, cut_off, crashed, hanging, talk, Ends,
}
use vender.Server.Run.Serve.{run-talk}
use vender.Main
use vender.Main.{exit_status, drop_server, with_server, main}

-- The status for each ending of a conversation.
abbrev pub status_of : Ending → Option ℕ
status_of stopped = some 0
status_of input_ended = some 1
status_of cut_off = some 1
status_of crashed = some 101
status_of hanging = none

exit_status-ends :
    (ending : Ending) (r : Outcome (Unit {0})) → Ends ending r → exit_status r ≡ status_of ending
unfolding exit_status
exit_status-ends stopped r e = rw e refl
exit_status-ends input_ended r (error, e) = rw e refl
exit_status-ends cut_off r (error, e) = rw e refl
exit_status-ends crashed r e = rw e refl
exit_status-ends hanging r e = rw e refl

-- The set-up of the C library gives a server or an error.
new_server_returns :
    (H : Hardware)
    → ((new_server H false []).0 ≢ panicked) × ((new_server H false []).0 ≢ out_of_fuel)
unfolding new_server init check ◌>>=◌
new_server_returns H = (λ e. ground arith, λ e. ground arith)

module _ (H : Hardware) (E : Env) (fuel : ℕ) (B : Protobuf) (F : Framing B) (rounds : ℕ)
    (input : B.Input) (output : B.Output) (short : length (F.pending input) < rounds) where
  -- The status of a process: 1 if the C library could not be set up, and otherwise that of the
  -- conversation over the requests of the input.
  abbrev pub Exits : Option ℕ → Type 0
  Exits status =
      ((e : Error) × (h : History) × (new_server H false [] ≡ (err e, h)) × (status ≡ some 1))
      ⊎ (server : Server) × (h : History) × (new_server H false [] ≡ (ok server, h))
        × (status
            ≡ status_of
                (talk H E fuel B (F.pending input) (record server { running = true }) h
                  output).ending)

  same_status :
      (r : Outcome (Unit {0})) (w : Wire B)
      → exit_status (finalize r (drop_server H E B fuel rounds) w).0 ≡ exit_status r
  same_status (ok _) w = refl
  same_status (err _) w = refl
  same_status panicked w = refl
  same_status out_of_fuel w = refl

  served :
      (server : Server) (h : History)
      → exit_status (with_server H E B fuel rounds input output server h).0
        ≡ status_of
            (talk H E fuel B (F.pending input) (record server { running = true }) h output).ending
  unfolding with_server
  served server h =
      let w : Wire B = record { input = input; output = output; server = server; history = h } in
      let (r, w') = Run.run H E B fuel rounds w in
      let (ends, _, _, _, _, _) = run-talk H E fuel B F rounds w short in
      same_status r w'
      ∙ exit_status-ends
          (talk H E fuel B (F.pending input) (record server { running = true }) h output).ending r
          ends

  by_server :
      (r : Outcome Server) (h : History)
      → new_server H false [] ≡ (r, h)
      → Exits (exit_status (continue r (with_server H E B fuel rounds input output) h).0)
  unfolding exit_status
  by_server (ok server) h e = inr (server, h, e, served server h)
  by_server (err error) h e = inl (error, h, e, refl)
  by_server panicked h e = absurd ((new_server_returns H).0 (ap (λ s. s.0) e))
  by_server out_of_fuel h e = absurd ((new_server_returns H).1 (ap (λ s. s.0) e))

  -- Over a stream of whole messages, with more rounds than requests, the exit status of the process
  -- is 1 if the C library cannot be set up; otherwise it is 0 if the conversation ends with a STOP
  -- whose response was written and flushed, 1 if a response cannot be written and flushed, also
  -- that of a STOP, 1 if the input ends before a STOP, and 101 if a request panics. There is no
  -- status only where a loop inside a request has run out of its rounds.
  pub main-Exits : Exits (main H E B fuel rounds input output).0
  unfolding main Main.run ◌>>=◌
  main-Exits = by_server (new_server H false []).0 (new_server H false []).1 refl
