-- ===== src/Server/Run/Protocol.antt =====
-- The conversations of the loop, as traces of the protocol.
use vender.Prelude.{
  ℕ, ◌<◌, ◌≡◌, ◌⊎◌, inl, inr, refl, sym, ap, ◌∙◌, Bool, true, false, Option, none, some, List, [],
  ◌∷◌, ◌++◌, length,
}
use vender.Error.{Error}
use vender.Exec.{Outcome, ok, err, panicked, out_of_fuel}
use vender.Ffi.{History, Hardware}
use vender.Mdb.Driver.{Env}
use vender.Server.{Request, Response, Server, Session}
use vender.Server.Contract.{View, view, Answers, Conforms, exec-Conforms}
use vender.Server.Run
use vender.Server.Run.{Protobuf, Wire}
use vender.Server.Run.Talk.{
  Framing, Talk, Ending, stopped, input_ended, cut_off, crashed, hanging, deliver, delivered,
  spoken, worked, talk, Ends,
}
use vender.Server.Run.Serve.{Left, talk_stopped, talk_ended, talk_next, run-talk}

-- The steps of the protocol: a server that runs takes the next request, gives a response to it, and
-- goes on as the command and the status of the response say. The requests at the end are those that
-- it has not taken.
pub data Trace : View → List Request → List Response → View → List Request → Type 0 where
  rest : {v : View} {requests : List Request} → Trace v requests [] v requests
  answer :
      {v v' v'' : View} {r : Request} {requests left : List Request} (response : Response)
      {responses : List Response}
      → v.running ≡ true
      → Answers r.command v response.status v'
      → Trace v' requests responses v'' left
      → Trace v (r ∷ requests) (response ∷ responses) v'' left

-- The next request was worked on, and its response could not be sent: the server is as the
-- protocol says of the command and of the status in that response.
abbrev pub Lost : (B : Protobuf) → View → List Request → View → (intact output : B.Output) → Type 0
Lost B v left v' o o' =
    (r : Request) × (requests : List Request) × (response : Response) × (e : Error) × (left
      ≡ r ∷ requests)
    × (v.running ≡ true)
    × Answers r.command v response.status v'
    × (deliver B response o ≡ (some e, o'))

-- Where a conversation that has ended leaves the server and the requests, by how it ended.
abbrev Settled :
    (B : Protobuf) → Ending → View → List Request → View → (intact output : B.Output) → Type 0
Settled B stopped v left v' o o' = (v ≡ v') × (v.running ≡ false)
Settled B input_ended v left v' o o' = (v ≡ v') × (v.running ≡ true) × (left ≡ [])
Settled B cut_off v left v' o o' = Lost B v left v' o o'
Settled B crashed v left v' o o' = Unit
Settled B hanging v left v' o o' = Unit

abbrev Traced : (B : Protobuf) → View → List Request → Talk B.Output → Type 0
Traced B v requests t =
    (v' : View) × (left : List Request) × Trace v requests t.responses v' left
    × Settled B t.ending v' left (view t.server) t.intact t.output

module _ (H : Hardware) (E : Env) (fuel : ℕ) (B : Protobuf) where
  delivered-Traced :
      (r : Request) (requests : List Request) (server : Server) (s : Session) (o : B.Output)
      (d : Option Error × B.Output)
      → deliver B s.response o ≡ d
      → server.running ≡ true
      → Answers r.command (view server) s.response.status (view s.server)
      → ((server : Server) (h : History) (o : B.Output)
          → Traced B (view server) requests (talk H E fuel B requests server h o))
      → Traced B (view server) (r ∷ requests) (delivered d o s (talk H E fuel B requests))
  delivered-Traced r requests server s o (none, o') e runs conforms again =
      let (v, left, trace, settled) = again s.server s.history o' in
      (v, left, answer s.response runs conforms trace, settled)
  delivered-Traced r requests server s o (some error, o') e runs conforms again =
      (view server, r ∷ requests, rest, (r, requests, s.response, error, refl, runs, conforms, e))

  spoken-Traced :
      (r : Request) (requests : List Request) (server : Server) (x : Outcome (Unit {0}))
      (s : Session) (o : B.Output)
      → server.running ≡ true
      → Conforms r.command (view server) x s
      → ((server : Server) (h : History) (o : B.Output)
          → Traced B (view server) requests (talk H E fuel B requests server h o))
      → Traced B (view server) (r ∷ requests) (spoken B x s o (talk H E fuel B requests))
  spoken-Traced r requests server (ok _) s o runs conforms again =
      delivered-Traced r requests server s o (deliver B s.response o) refl runs conforms again
  spoken-Traced r requests server (err _) s o runs conforms again =
      delivered-Traced r requests server s o (deliver B s.response o) refl runs conforms again
  spoken-Traced r requests server panicked s o runs conforms again =
      (view server, r ∷ requests, rest, tt)
  spoken-Traced r requests server out_of_fuel s o runs conforms again =
      (view server, r ∷ requests, rest, tt)

module _ (H : Hardware) (E : Env) (fuel : ℕ) (B : Protobuf) (F : Framing B) where
  talk-Traced :
      (requests : List Request) (server : Server) (h : History) (o : B.Output) (running : Bool)
      → server.running ≡ running
      → Traced B (view server) requests (talk H E fuel B requests server h o)
  talk-Traced requests server h o false e =
      rw (talk_stopped H E fuel B F requests server h o e) (view server, requests, rest, (refl, e))
  talk-Traced [] server h o true e =
      rw (talk_ended H E fuel B F server h o e) (view server, [], rest, (refl, e, refl))
  talk-Traced (r ∷ requests) server h o true e =
      rw (talk_next H E fuel B F r requests server h o e) (
        spoken-Traced H E fuel B r requests server (worked H E fuel r server h).0
          (worked H E fuel r server h).1 o e (exec-Conforms H E fuel r server h)
          (λ server h o. talk-Traced requests server h o server.running refl))

  -- The state of the protocol once the loop has returned: it has been stopped; or an error has
  -- ended it, with no request left while it still ran, or with a response that was lost. Nothing
  -- was written after the responses that were sent, but for the one that was lost.
  abbrev pub Returned : Outcome (Unit {0}) → View → List Request → B.Output → Wire B → Type 0
  Returned (ok _) v left o w = (v ≡ view w.server) × (v.running ≡ false) × (w.output ≡ o)
  Returned (err _) v left o w =
      ((v ≡ view w.server) × (v.running ≡ true) × (left ≡ []) × (w.output ≡ o))
      ⊎ Lost B v left (view w.server) o w.output
  Returned panicked v left o w = w.output ≡ o
  Returned out_of_fuel v left o w = w.output ≡ o

  returned :
      (ending : Ending) (r : Outcome (Unit {0})) (v v' : View) (left : List Request)
      (o o' : B.Output) (w : Wire B)
      → Ends ending r
      → Settled B ending v left v' o o'
      → view w.server ≡ v'
      → w.output ≡ o'
      → Left B ending o w.output
      → Returned r v left o w
  returned stopped r v v' left o o' w e (same, stops) at out end = rw e (same ∙ sym at, stops, end)
  returned input_ended r v v' left o o' w (error, e) (same, runs, none_left) at out end =
      rw e (inl (same ∙ sym at, runs, none_left, end))
  returned cut_off r v v' left o o' w (error, e) lost at out end = rw (e, at, out) (inr lost)
  returned crashed r v v' left o o' w e settled at out end = rw e end
  returned hanging r v v' left o o' w e settled at out end = rw e end

  -- What `run` has sent is a trace of the protocol over the requests of the stream.
  abbrev pub Followed : Wire B → Outcome (Unit {0}) → Wire B → Type 0
  Followed w r w' =
      (responses : List Response) × (v : View) × (left : List Request) × (o : B.Output) × (F.sent o
        ≡ F.sent w.output ++ responses)
      × Trace (record (view w.server) { running = true }) (F.pending w.input) responses v left
      × Returned r v left o w'

  -- Over a stream of whole messages, with more rounds than requests, what `run` sends is a trace of
  -- the protocol, whether its writes and flushes succeed or fail: one response for each request
  -- that it has answered, in their order, and each with a status that the protocol allows for its
  -- command in the state that the responses before it have led to. After a success the server is in
  -- the last state of the trace, and that is a stopped one. After an error either it is in the last
  -- state, still running, and each request was answered; or the next request was worked on, the
  -- server is as the protocol says of its response, and that response could not be written and
  -- flushed.
  pub run-Followed :
      (rounds : ℕ) (w : Wire B)
      → length (F.pending w.input) < rounds
      → let (r, w') = Run.run H E B fuel rounds w in Followed w r w'
  run-Followed rounds w short =
      let requests = F.pending w.input in
      let started : Server = record (w.server) { running = true } in
      let t = talk H E fuel B requests started w.history w.output in
      let (ends, sent, end, output, server, history) = run-talk H E fuel B F rounds w short in
      let (v, left, trace, settled) = talk-Traced requests started w.history w.output true refl in
      let (r, w') = Run.run H E B fuel rounds w in
      (
        t.responses,
        v,
        left,
        t.intact,
        sent,
        trace,
        returned t.ending r v (view t.server) left t.intact t.output w' ends settled
            (ap view server) output end,
      )
