-- ===== src/Tests/Waves.antt =====
-- The theorems on waves at concrete runs.
use vender.Prelude.{◌≡◌, refl, some, List, [], ◌∷◌}
use vender.Ffi.Waves.{created, deleted}
use vender.Server.{Request, mdb_open, mdb_tx, stop}
use vender.Main.{main}
use vender.Main.Waves.{main-frees}
use vender.Tests.Bench.{bench, bench_env, request, messages, process}

abbrev session : List Request
session = request mdb_open 0 (15 ∷ 14 ∷ []) ∷ request mdb_tx 0 (1 ∷ 2 ∷ []) ∷ request stop 0 [] ∷ []

-- A run with a driver, a transfer and a stop ends with success.
ends : (process session).0 ≡ some 0
unfolding process
ends = refl

main-frees_example :
    created bench 2 (main bench bench_env messages 10 10 session []).1
    ≡ deleted 2 (main bench bench_env messages 10 10 session []).1
unfolding process
main-frees_example = main-frees bench bench_env messages 10 10 2 session [] λ e. cc
