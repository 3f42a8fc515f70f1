-- ===== src/Tests/Serve.antt =====
-- The theorem on the loop of the server at a concrete stream.
use vender.Prelude.{◌≡◌, refl, sym, ap, List, [], ◌∷◌, ◌++◌, none, false, inl, inr, arith}
use vender.Error.{protobuf}
use vender.Server.{Request, Response, mdb_tx, stop}
use vender.Server.Run
use vender.Server.Run.{Wire}
use vender.Server.Run.Protocol.{Followed, run-Followed}
use vender.Server.Run.Talk.{Framing, deliver}
use vender.Main.{main}
use vender.Main.Exit.{Exits, main-Exits}
use vender.Tests.Bench.{bench, bench_env, request, read_length, messages}

ends : (i : List Request) → i ≡ [] → read_length i ≡ (inl (protobuf "unexpected end of file"), [])
ends [] e = refl
ends (r ∷ rs) e = ground arith

reads :
    (i : List Request) (r : Request) (rs : List Request)
    → i ≡ r ∷ rs
    → read_length i ≡ (inr 4, r ∷ rs)
reads i r rs e = rw e refl

sent_once :
    (r : Response) (o o' : List Response) → deliver messages r o ≡ (none, o') → o' ≡ o ++ r ∷ []
unfolding deliver
sent_once r o o' e = sym (ap (λ d. d.1) e)

abbrev framing : Framing messages
framing = record {
  pending = λ i. i;
  sent = λ o. o;
  at_end = λ i e. (protobuf "unexpected end of file", [], ends i e);
  receives = λ i r rs e. (4, r ∷ rs, 0, r ∷ rs, rs, reads i r rs e, refl, refl, refl);
  sends = λ r o o' e. sent_once r o o' e;
}

-- A transfer without a driver, a stop, and a request that stays in the stream.
abbrev requests : List Request
requests = request mdb_tx 0 (1 ∷ []) ∷ request stop 0 [] ∷ request mdb_tx 0 (2 ∷ []) ∷ []

abbrev wire : Wire messages
wire = record {
  input = requests;
  output = [];
  server = record { mdb = none; mock = false; running = false };
  history = [];
}

run-Followed_example :
    let (r, w) = Run.run bench bench_env messages 10 5 wire in
    Followed bench bench_env 10 messages framing wire r w
run-Followed_example = run-Followed bench bench_env 10 messages framing 5 wire (omega arith)

main-Exits_example :
    Exits bench bench_env 10 messages framing 5 requests []
      (omega arith)
      (main bench bench_env messages 10 5 requests []).0
main-Exits_example = main-Exits bench bench_env 10 messages framing 5 requests [] (omega arith)
