-- ===== src/Server/Run.antt =====
-- `Server::run` of cmd/iodin/src/server.rs, over any protobuf library: the loop that reads a
-- request, executes it and writes the response.
pub mod Protocol
pub mod Waves
pub mod Talk
pub mod Serve
use vender.Prelude.{
  ℕ, zero, suc, ◌⊎◌, inl, inr, Option, none, some, Bool, true, false, if◌then◌else◌,
}
use vender.Error.{Error, to_string}
use vender.Exec.{
  Outcome, Exec, ok, err, panicked, out_of_fuel, pure, stuck, gets, modify, attempt, ◌>>=◌, ◌>>◌,
}
use vender.Ffi.{History, Hardware}
use vender.Mdb.Driver.{Env}
use vender.Server.{Request, Response, new_request, new_response, Server, Session, err_input, exec}

-- The operations of the crate `protobuf` that the loop calls, on a stream in and a stream out.
pub record Protobuf : Type 1 where
  pub Input : Type 0
  pub Output : Type 0
  pub read_fixed32 : Input → (Error ⊎ ℕ) × Input
  -- gives the old limit
  pub push_limit : ℕ → Input → (Error ⊎ ℕ) × Input
  pub merge_from : Request → Input → Option Error × Request × Input
  pub pop_limit : ℕ → Input → Input
  pub compute_size : Response → ℕ
  pub write_fixed32 : ℕ → Output → Option Error × Output
  pub write_to : Response → Output → Option Error × Output
  pub flush : Output → Option Error × Output

module _ (B : Protobuf) where
  pub record Wire : Type 0 where
    pub input : B.Input
    pub output : B.Output
    pub server : Server
    pub history : History

-- `?` on what a call of the library gives.
abbrev pub outcome : {A : Type 0} → Error ⊎ A → Outcome A
outcome (inl e) = err e
outcome (inr a) = ok a

abbrev pub outcome_unit : Option Error → Outcome (Unit {0})
outcome_unit none = ok tt
outcome_unit (some e) = err e

module _ (H : Hardware) (E : Env) (B : Protobuf) (fuel : ℕ) where
  abbrev pub reading : {A : Type 0} → (B.Input → (Error ⊎ A) × B.Input) → Exec (Wire B) A
  reading f w = let (r, i) = f w.input in (outcome r, record w { input = i })

  abbrev pub writing : (B.Output → Option Error × B.Output) → Exec (Wire B) (Unit {0})
  writing f w = let (r, o) = f w.output in (outcome_unit r, record w { output = o })

  -- `self.exec(&request, &mut response)` on a new response. An `Err` is only logged.
  abbrev pub logged : Outcome (Unit {0}) → Session → Exec (Wire B) Response
  logged (ok _) s w = (ok s.response, record w { server = s.server; history = s.history })
  logged (err _) s w = (ok s.response, record w { server = s.server; history = s.history })
  logged panicked s w = (panicked, record w { server = s.server; history = s.history })
  logged out_of_fuel s w = (out_of_fuel, record w { server = s.server; history = s.history })

  unfoldable pub execute : Request → Exec (Wire B) Response
  execute request w =
      let (r, s) =
        exec H E fuel request
          (record { server = w.server; response = new_response; history = w.history }) in
      logged r s w

  -- The response to what `merge_from` made of the bytes.
  unfoldable pub respond : Option Error → Request → Exec (Wire B) Response
  unfolding execute
  respond (some e) request = pure (record new_response { status = err_input; error = to_string e })
  respond none request = execute request

  -- The body of the loop.
  unfoldable pub serve_one : Exec (Wire B) (Unit {0})
  unfolding respond
  serve_one = do
    msglen ← reading B.read_fixed32
    old_limit ← reading (B.push_limit msglen)
    (failed, request) ← (λ w.
        let (failed, request, i) = B.merge_from new_request w.input in
        (ok (failed, request), record w { input = i }))
    response ← respond failed request
    modify λ w. record w { input = B.pop_limit old_limit w.input }
    writing (B.write_fixed32 (B.compute_size response))
    writing (B.write_to response)
    writing B.flush

  -- `while self.running`
  unfoldable pub serve : (rounds : ℕ) → Exec (Wire B) (Unit {0})
  serve zero = stuck
  serve (suc rounds) = do
    running ← gets λ w. w.server.running
    if running then (do serve_one; serve rounds) else pure tt

  unfoldable pub run : (rounds : ℕ) → Exec (Wire B) (Unit {0})
  run rounds = do
    modify λ w. record w { server = record (w.server) { running = true } }
    serve rounds
