-- ===== src/Server/Run/Serve.antt =====
-- The loop of the server over a stream of whole messages, and the conversation it is to have.
use vender.Prelude.{
  ℕ, zero, suc, ◌<◌, ◌≡◌, refl, ◌∙◌, sym, ap, Bool, true, false, Option, none, some, List, [], ◌∷◌,
  ◌++◌, arith, length, if◌then◌else◌,
}
use mathlib.Core.List.{append-nil, append_assoc}
use vender.Error.{Error}
use vender.Exec.{Outcome, Exec, ok, err, panicked, out_of_fuel, continue, ◌>>=◌, ◌>>◌}
use vender.Ffi.{History, Hardware}
use vender.Mdb.Driver.{Env}
use vender.Server.{Request, Response, Server, Session}
use vender.Server.Run
use vender.Server.Run.{Protobuf, Wire, outcome_unit, writing, execute, serve_one, serve}
use vender.Server.Run.Talk.{
  Framing, Ending, Talk, stopped, input_ended, cut_off, deliver, silent, delivered, spoken, worked,
  talk, Ends,
}

-- Where a conversation leaves the output: a delivery has failed, or nothing came after the last
-- response that was sent.
abbrev pub Left : (B : Protobuf) → Ending → (intact output : B.Output) → Type 0
Left B cut_off o o' = (r : Response) × (e : Error) × (deliver B r o ≡ (some e, o'))
Left B _ o o' = o' ≡ o

module _ (H : Hardware) (E : Env) (fuel : ℕ) (B : Protobuf) (F : Framing B) where
  -- The loop has had this conversation, after the responses that were there.
  abbrev pub Had : List Response → Talk B.Output → Outcome (Unit {0}) → Wire B → Type 0
  Had before t r w =
      Ends t.ending r
      × (F.sent t.intact ≡ before ++ t.responses)
      × Left B t.ending t.intact w.output
      × (w.output ≡ t.output)
      × (w.server ≡ t.server)
      × (w.history ≡ t.history)

  -- The end of a round, in which the response goes out.
  abbrev send_out : Response → Exec (Wire B) (Unit {0})
  send_out response = do
    writing H E B fuel (B.write_fixed32 (B.compute_size response))
    writing H E B fuel (B.write_to response)
    writing H E B fuel B.flush

  send_out-deliver :
      (r : Response) (w : Wire B)
      → let (e, o) = deliver B r w.output in
        send_out r w ≡ (outcome_unit e, record w { output = o })
  unfolding deliver ◌>>=◌
  send_out-deliver r w = ground arith

  -- What one round does with a request that is pending, by how the delivery goes.
  abbrev Told :
      Wire B
      → List Request
      → Session
      → Option Error × B.Output
      → Outcome (Unit {0})
      → Wire B
      → Type 0
  Told w rs s (none, o) r w' =
      (r ≡ ok tt)
      × (F.pending w'.input ≡ rs)
      × (F.sent o ≡ F.sent w.output ++ s.response ∷ [])
      × (w'.output ≡ o)
      × (w'.server ≡ s.server)
      × (w'.history ≡ s.history)
  Told w rs s (some e, o) r w' =
      (r ≡ err e) × (w'.output ≡ o) × (w'.server ≡ s.server) × (w'.history ≡ s.history)

  abbrev Answered :
      Wire B → List Request → Outcome (Unit {0}) → Session → Outcome (Unit {0}) → Wire B → Type 0
  Answered w rs (ok _) s r w' = Told w rs s (deliver B s.response w.output) r w'
  Answered w rs (err _) s r w' = Told w rs s (deliver B s.response w.output) r w'
  Answered w rs panicked s r w' =
      (r ≡ panicked) × (w'.output ≡ w.output) × (w'.server ≡ s.server) × (w'.history ≡ s.history)
  Answered w rs out_of_fuel s r w' =
      (r ≡ out_of_fuel) × (w'.output ≡ w.output) × (w'.server ≡ s.server) × (w'.history ≡ s.history)

  deliver-Told :
      (w w₃ : Wire B) (rs : List Request) (s : Session) (d : Option Error × B.Output)
      → deliver B s.response w.output ≡ d
      → F.pending w₃.input ≡ rs
      → w₃.server ≡ s.server
      → w₃.history ≡ s.history
      → Told w rs s d (outcome_unit d.0) (record w₃ { output = d.1 })
  deliver-Told w w₃ rs s (none, o) e left at past =
      (refl, left, F.sends s.response w.output o e, refl, at, past)
  deliver-Told w w₃ rs s (some error, o) e left at past = (refl, refl, at, past)

  send_out-Told :
      (w w₃ : Wire B) (rs : List Request) (s : Session)
      → w₃.output ≡ w.output
      → F.pending w₃.input ≡ rs
      → w₃.server ≡ s.server
      → w₃.history ≡ s.history
      → let (r, w') = send_out s.response w₃ in Told w rs s (deliver B s.response w.output) r w'
  send_out-Told w w₃ rs s same left at past =
      rw (send_out-deliver s.response w₃, same)
        (deliver-Told w w₃ rs s (deliver B s.response w.output) refl left at past)

  serve_one-Answered :
      (w : Wire B) (r : Request) (rs : List Request) (o : Outcome (Unit {0})) (s : Session)
      → F.pending w.input ≡ r ∷ rs
      → worked H E fuel r w.server w.history ≡ (o, s)
      → Answered w rs o s (serve_one H E B fuel w).0 (serve_one H E B fuel w).1
  unfolding serve_one execute ◌>>=◌
  serve_one-Answered w r rs (ok _) s e x =
      let (n, i₁, old, i₂, i₃, e₁, e₂, e₃, e₄) = F.receives w.input r rs e in
      let w₃ : Wire B = record {
        input = B.pop_limit old i₃;
        output = w.output;
        server = s.server;
        history = s.history;
      } in
      rw (e₁, e₂, e₃, x) (send_out-Told w w₃ rs s refl e₄ refl refl)
  serve_one-Answered w r rs (err _) s e x =
      let (n, i₁, old, i₂, i₃, e₁, e₂, e₃, e₄) = F.receives w.input r rs e in
      let w₃ : Wire B = record {
        input = B.pop_limit old i₃;
        output = w.output;
        server = s.server;
        history = s.history;
      } in
      rw (e₁, e₂, e₃, x) (send_out-Told w w₃ rs s refl e₄ refl refl)
  serve_one-Answered w r rs panicked s e x =
      let (n, i₁, old, i₂, i₃, e₁, e₂, e₃, e₄) = F.receives w.input r rs e in
      rw (e₁, e₂, e₃, x) (refl, refl, refl, refl)
  serve_one-Answered w r rs out_of_fuel s e x =
      let (n, i₁, old, i₂, i₃, e₁, e₂, e₃, e₄) = F.receives w.input r rs e in
      rw (e₁, e₂, e₃, x) (refl, refl, refl, refl)

  serve_one-ends :
      (w : Wire B)
      → F.pending w.input ≡ []
      → (e : Error) × (i : B.Input) × (serve_one H E B fuel w ≡ (err e, record w { input = i }))
  unfolding serve_one ◌>>=◌
  serve_one-ends w none_left = let (e, i, x) = F.at_end w.input none_left in (e, i, rw x refl)

  -- The rounds that come after, over what is left of the stream.
  abbrev GoesOn : (rounds : ℕ) → List Request → Type 0
  GoesOn rounds rs =
      (w : Wire B)
      → F.pending w.input ≡ rs
      → let (r, w') = serve H E B fuel rounds w in
        Had (F.sent w.output) (talk H E fuel B rs w.server w.history w.output) r w'

  after_delivery :
      (rounds : ℕ) (w w₁ : Wire B) (rs : List Request) (r₁ : Outcome (Unit {0})) (s : Session)
      (d : Option Error × B.Output)
      → deliver B s.response w.output ≡ d
      → GoesOn rounds rs
      → Told w rs s d r₁ w₁
      → let (r, w') = continue r₁ (λ _. serve H E B fuel rounds) w₁ in
        Had (F.sent w.output) (delivered d w.output s (talk H E fuel B rs)) r w'
  after_delivery rounds w w₁ rs r₁ s (none, o) e again (done, left, sent, out, at, past) =
      let (ends, all, rests, output, server, history) = again w₁ left in
      rw (done, sym at, sym past, sym out)
        (
          ends,
          all ∙ rw (out, sent) (append_assoc (F.sent w.output) (s.response ∷ []) _),
          rests,
          output,
          server,
          history,
        )
  after_delivery rounds w w₁ rs r₁ s (some error, o) e again (done, out, at, past) = rw done (
    (error, refl),
    sym (append-nil (F.sent w.output)),
    (s.response, error, e ∙ ap (λ o. (some error, o)) (sym out)),
    out,
    at,
    past,
  )

  -- The rounds after a request, once it has been worked on.
  after_answer :
      (rounds : ℕ) (w w₁ : Wire B) (rs : List Request) (o r₁ : Outcome (Unit {0})) (s : Session)
      → GoesOn rounds rs
      → Answered w rs o s r₁ w₁
      → let (r, w') = continue r₁ (λ _. serve H E B fuel rounds) w₁ in
        Had (F.sent w.output) (spoken B o s w.output (talk H E fuel B rs)) r w'
  after_answer rounds w w₁ rs (ok _) r₁ s again told =
      after_delivery rounds w w₁ rs r₁ s (deliver B s.response w.output) refl again told
  after_answer rounds w w₁ rs (err _) r₁ s again told =
      after_delivery rounds w w₁ rs r₁ s (deliver B s.response w.output) refl again told
  after_answer rounds w w₁ rs panicked r₁ s again (done, out, at, past) =
      rw done (refl, sym (append-nil (F.sent w.output)), out, out, at, past)
  after_answer rounds w w₁ rs out_of_fuel r₁ s again (done, out, at, past) =
      rw done (refl, sym (append-nil (F.sent w.output)), out, out, at, past)

  serve_stopped :
      (rounds : ℕ) (w : Wire B)
      → w.server.running ≡ false
      → serve H E B fuel (suc rounds) w ≡ (ok tt, w)
  unfolding serve ◌>>=◌
  serve_stopped rounds w e = rw e refl

  serve_running :
      (rounds : ℕ) (w : Wire B)
      → w.server.running ≡ true
      → serve H E B fuel (suc rounds) w
        ≡ continue
            (serve_one H E B fuel w).0
            (λ _. serve H E B fuel rounds)
            (serve_one H E B fuel w).1
  unfolding serve ◌>>=◌
  serve_running rounds w e = rw e refl

  pub talk_stopped :
      (rs : List Request) (server : Server) (h : History) (o : B.Output)
      → server.running ≡ false
      → talk H E fuel B rs server h o ≡ silent stopped server h o
  unfolding talk
  talk_stopped [] server h o e = rw e refl
  talk_stopped (r ∷ rs) server h o e = rw e refl

  pub talk_ended :
      (server : Server) (h : History) (o : B.Output)
      → server.running ≡ true
      → talk H E fuel B [] server h o ≡ silent input_ended server h o
  unfolding talk
  talk_ended server h o e = ap (λ b. silent (if b then input_ended else stopped) server h o) e

  pub talk_next :
      (r : Request) (rs : List Request) (server : Server) (h : History) (o : B.Output)
      → server.running ≡ true
      → talk H E fuel B (r ∷ rs) server h o
        ≡ spoken B
            (worked H E fuel r server h).0
            (worked H E fuel r server h).1
            o
            (talk H E fuel B rs)
  unfolding talk
  talk_next r rs server h o e =
      ap
        (λ b. elim b [
          | true ↦
              spoken B (worked H E fuel r server h).0 (worked H E fuel r server h).1 o
                (talk H E fuel B rs)
          | false ↦ silent stopped server h o
        ])
        e

  serve-Had :
      (rounds : ℕ) (rs : List Request) (w : Wire B) (running : Bool)
      → F.pending w.input ≡ rs
      → w.server.running ≡ running
      → length rs < rounds
      → let (r, w') = serve H E B fuel rounds w in
        Had (F.sent w.output) (talk H E fuel B rs w.server w.history w.output) r w'
  serve-Had zero rs w running left e short = absurd (omega arith)
  serve-Had (suc rounds) rs w false left e short =
      rw (serve_stopped rounds w e, talk_stopped rs w.server w.history w.output e)
        (refl, sym (append-nil (F.sent w.output)), refl, refl, refl, refl)
  serve-Had (suc rounds) [] w true left e short =
      let (error, i, x) = serve_one-ends w left in
      rw (serve_running rounds w e, x, talk_ended w.server w.history w.output e)
        ((error, refl), sym (append-nil (F.sent w.output)), refl, refl, refl, refl)
  serve-Had (suc rounds) (r ∷ rs) w true left e short =
      rw (serve_running rounds w e, talk_next r rs w.server w.history w.output e)
        (after_answer rounds w (serve_one H E B fuel w).1 rs
          (worked H E fuel r w.server w.history).0 (serve_one H E B fuel w).0
          (worked H E fuel r w.server w.history).1
          (λ w' left'. serve-Had rounds rs w' w'.server.running left' refl (omega arith))
          (serve_one-Answered w r rs (worked H E fuel r w.server w.history).0
            (worked H E fuel r w.server w.history).1 left refl))

  pub run-talk :
      (rounds : ℕ) (w : Wire B)
      → length (F.pending w.input) < rounds
      → let (r, w') = Run.run H E B fuel rounds w in
        let started = record (w.server) { running = true } in
        Had (F.sent w.output) (talk H E fuel B (F.pending w.input) started w.history w.output) r w'
  unfolding Run.run ◌>>=◌
  run-talk rounds w short =
      serve-Had rounds (F.pending w.input)
        (record w { server = record (w.server) { running = true } }) true refl refl short
