-- ===== src/Server/Run/Waves.antt =====
-- Who owns which waves, over the loop of the server.
use vender.Prelude.{ℕ, zero, suc, ◌⊎◌, inl, inr, Option, none, some}
use vender.Error.{Error}
use vender.Exec.{Outcome, ok, err, panicked, out_of_fuel}
use vender.Exec.Keeps.{Post, Keeps, Keeps-bind, Keeps-gets, Keeps-pure, Keeps-stuck, Keeps-if}
use vender.Ffi.{Hardware}
use vender.Pigpio.Waves.{Owns}
use vender.Mdb.Driver.{Env}
use vender.Server.{Request, new_response, Session, exec}
use vender.Server.Clean.{held, IsClean}
use vender.Server.Waves.{Keeps-exec}
use vender.Server.Run.{
  Protobuf, Wire, outcome, outcome_unit, reading, writing, logged, respond, serve_one, serve, run,
}

module _ (H : Hardware) (E : Env) (B : Protobuf) (fuel wave : ℕ) where
  abbrev pub WireClean : Wire B → Type 0
  WireClean w = Owns H wave (held wave w.server.mdb) w.history

  Post-outcome :
      {A : Type 0} (r : Error ⊎ A) (w : Wire B)
      → WireClean w
      → Post (λ _. WireClean) WireClean (outcome r) w
  Post-outcome (inl e) w h = h
  Post-outcome (inr a) w h = h

  Keeps-reading :
      {A : Type 0} (f : B.Input → (Error ⊎ A) × B.Input) → Keeps WireClean (reading H E B fuel f)
  Keeps-reading f = record {
    at = λ w h. Post-outcome (f w.input).0 (record w { input = (f w.input).1 }) h;
  }

  Post-outcome_unit :
      (r : Option Error) (w : Wire B)
      → WireClean w
      → Post (λ _. WireClean) WireClean (outcome_unit r) w
  Post-outcome_unit none w h = h
  Post-outcome_unit (some e) w h = h

  Keeps-writing : (f : B.Output → Option Error × B.Output) → Keeps WireClean (writing H E B fuel f)
  Keeps-writing f = record {
    at = λ w h. Post-outcome_unit (f w.output).0 (record w { output = (f w.output).1 }) h;
  }

  Post-logged :
      (r : Outcome (Unit {0})) (s : Session) (w : Wire B)
      → Post (λ _. IsClean H wave) (IsClean H wave) r s
      → Post (λ _. WireClean) WireClean (logged H E B fuel r s w).0 (logged H E B fuel r s w).1
  Post-logged (ok _) s w h = h
  Post-logged (err _) s w h = h
  Post-logged panicked s w h = h
  Post-logged out_of_fuel s w h = tt

  Keeps-respond :
      (failed : Option Error) (request : Request)
      → Keeps WireClean (respond H E B fuel failed request)
  unfolding respond
  Keeps-respond (some e) request = Keeps-pure _ _
  Keeps-respond none request = record {
    at = λ w h.
        let s : Session = record {
          server = w.server;
          response = new_response;
          history = w.history;
        } in
        Post-logged (exec H E fuel request s).0 (exec H E fuel request s).1 w
          ((Keeps-exec H wave E fuel request).at s h);
  }

  Keeps-serve_one : Keeps WireClean (serve_one H E B fuel)
  unfolding serve_one
  Keeps-serve_one = Keeps-bind _ _ _ (Keeps-reading B.read_fixed32) λ msglen.
      Keeps-bind _ _ _ (Keeps-reading (B.push_limit msglen)) λ old_limit.
        Keeps-bind _ _ _ (record { at = λ w h. h })
          λ r. Keeps-bind _ _ _ (Keeps-respond r.0 r.1) λ response.
            Keeps-bind _ _ _ (record { at = λ w h. h })
              λ _.
                Keeps-bind _ _ _ (Keeps-writing _)
                  λ _. Keeps-bind _ _ _ (Keeps-writing _) λ _. Keeps-writing _

  Keeps-serve : (rounds : ℕ) → Keeps WireClean (serve H E B fuel rounds)
  unfolding serve
  Keeps-serve zero = Keeps-stuck _
  Keeps-serve (suc rounds) = Keeps-bind _ _ _ (Keeps-gets _ _) λ running.
      Keeps-if _ running _ _ (Keeps-bind _ _ _ Keeps-serve_one λ _. Keeps-serve rounds)
        (Keeps-pure _ tt)

  -- The loop leaves the server as the owner of its driver's waves and of no others.
  pub Keeps-run : (rounds : ℕ) → Keeps WireClean (run H E B fuel rounds)
  unfolding run
  Keeps-run rounds = Keeps-bind _ _ _ (record { at = λ w h. h }) λ _. Keeps-serve rounds
