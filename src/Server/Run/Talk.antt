-- ===== src/Server/Run/Talk.antt =====
-- The conversation that `Server::run` is to have over a stream of whole messages, to a pipe that
-- may break.
use vender.Prelude.{
  ℕ, ◌≡◌, Option, inl, inr, true, false, none, some, List, [], ◌∷◌, ◌++◌, if◌then◌else◌,
}
use vender.Error.{Error}
use vender.Exec.{Outcome, ok, err, panicked, out_of_fuel}
use vender.Ffi.{History, Hardware}
use vender.Mdb.Driver.{Env}
use vender.Server.{Request, Response, new_request, new_response, Server, Session, exec}
use vender.Server.Run.{Protobuf}

module _ (B : Protobuf) where
  abbrev unless_failed :
      Option Error × B.Output → (B.Output → Option Error × B.Output) → Option Error × B.Output
  unless_failed (none, o) go_on = go_on o
  unless_failed (some e, o) go_on = (some e, o)

  -- A response goes out as its size, its bytes and a flush, up to the first that fails.
  unfoldable pub deliver : Response → B.Output → Option Error × B.Output
  deliver r o =
      unless_failed (unless_failed (B.write_fixed32 (B.compute_size r) o) (B.write_to r)) B.flush

-- What the loop relies on where the stream holds whole messages: a message is read with its length,
-- a limit and the limit's end; the stream's end is an error of the read; and a response has been
-- sent once it could be written and flushed. Any write and any flush may fail.
pub record Framing (B : Protobuf) : Type 0 where
  pub pending : B.Input → List Request
  pub sent : B.Output → List Response
  pub at_end :
      (i : B.Input)
      → pending i ≡ []
      → (e : Error) × (i' : B.Input) × (B.read_fixed32 i ≡ (inl e, i'))
  pub receives :
      (i : B.Input) (r : Request) (rs : List Request)
      → pending i ≡ r ∷ rs
      → (n : ℕ) × (i₁ : B.Input) × (old : ℕ) × (i₂ : B.Input) × (i₃ : B.Input) × (B.read_fixed32 i
          ≡ (inr n, i₁))
        × (B.push_limit n i₁ ≡ (inr old, i₂))
        × (B.merge_from new_request i₂ ≡ (none, r, i₃))
        × (pending (B.pop_limit old i₃) ≡ rs)
  pub sends :
      (r : Response) (o o' : B.Output) → deliver B r o ≡ (none, o') → sent o' ≡ sent o ++ r ∷ []

-- How a conversation ends: by STOP, at the end of the requests, with a response that cannot be
-- sent, by a panic, or never.
pub data Ending : Type 0 where
  stopped input_ended cut_off crashed hanging : Ending

-- A conversation: the responses that were sent, and what it leaves.
pub record Talk (Output : Type 0) : Type 0 where
  pub ending : Ending
  pub responses : List Response
  pub server : Server
  pub history : History
  -- once the last of the responses was sent, and at the end
  pub intact : Output
  pub output : Output

module _ {Output : Type 0} where
  abbrev pub silent : Ending → Server → History → Output → Talk Output
  silent ending server h o = record {
    ending = ending;
    responses = [];
    server = server;
    history = h;
    intact = o;
    output = o;
  }

  -- A response that could not be sent.
  abbrev pub broken : Server → History → Output → Output → Talk Output
  broken server h o o' = record (silent cut_off server h o) { output = o' }

  -- The conversation once the response of a session was delivered, or was not.
  abbrev pub delivered :
      Option Error × Output
      → Output
      → Session
      → (Server → History → Output → Talk Output)
      → Talk Output
  delivered (none, o') o s go_on =
      let rest = go_on s.server s.history o' in
      record rest { responses = s.response ∷ rest.responses }
  delivered (some e, o') o s go_on = broken s.server s.history o o'

module _ (B : Protobuf) where
  -- The conversation after a request that `exec` has worked on.
  abbrev pub spoken :
      Outcome (Unit {0})
      → Session
      → B.Output
      → (Server → History → B.Output → Talk B.Output)
      → Talk B.Output
  spoken (ok _) s o go_on = delivered (deliver B s.response o) o s go_on
  spoken (err _) s o go_on = delivered (deliver B s.response o) o s go_on
  spoken panicked s o go_on = silent crashed s.server s.history o
  spoken out_of_fuel s o go_on = silent hanging s.server s.history o

module _ (H : Hardware) (E : Env) (fuel : ℕ) where
  abbrev pub worked : Request → Server → History → Outcome (Unit {0}) × Session
  worked r server h =
      exec H E fuel r (record { server = server; response = new_response; history = h })

  module _ (B : Protobuf) where
    -- The specification of the loop: each request is executed on the server that the requests
    -- before it have left, and each has its own response, until one of the requests stops the
    -- server or one of the responses cannot be sent.
    unfoldable pub talk : List Request → Server → History → B.Output → Talk B.Output
    talk [] server h o = silent (if server.running then input_ended else stopped) server h o
    talk (r ∷ rs) server h o = elim server.running [
      | true ↦ spoken B (worked r server h).0 (worked r server h).1 o (talk rs)
      | false ↦ silent stopped server h o
    ]

-- The outcome of the loop for each ending.
abbrev pub Ends : Ending → Outcome (Unit {0}) → Type 0
Ends stopped r = r ≡ ok tt
Ends input_ended r = (e : Error) × (r ≡ err e)
Ends cut_off r = (e : Error) × (r ≡ err e)
Ends crashed r = r ≡ panicked
Ends hanging r = r ≡ out_of_fuel
