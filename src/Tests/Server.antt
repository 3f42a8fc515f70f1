-- ===== src/Tests/Server.antt =====
-- The theorems on `exec` at concrete requests.
use vender.Prelude.{◌≡◌, refl, some, [], ◌∷◌, false, true}
use vender.Exec.Keeps.{Post}
use vender.Ffi.{wave_create}
use vender.Ffi.Waves.{created, deleted}
use vender.Pigpio.{from_id}
use vender.Server.{Server, Session, new_response, mdb_open, mdb_tx, mdb_reset, exec}
use vender.Server.Contract.{Reports, Conforms, view, exec-Reports, exec-Conforms}
use vender.Server.Clean.{IsClean}
use vender.Server.Reset.{HasReset, exec-resets}
use vender.Server.Mocked.{mocked, exec-mocked}
use vender.Ffi.Mock.{mock}
use vender.Server.Waves.{exec-IsClean}
use vender.Mdb.Transfer.Sized.{Sized}
use vender.Server.Data.{HasFull, Carries, fresh, exec-Carries}
use vender.Tests.Bench.{bench, bench-Serial, bench_env, request}
use vender.Tests.Driver.{driver}

abbrev pub open_server : Server
open_server = record { mdb = some driver; mock = false; running = true }

abbrev pub echoing : Server
echoing = record { mdb = some driver; mock = true; running = true }

abbrev open_session : Session
open_session = record {
  server = open_server;
  response = new_response;
  history = wave_create ∷ wave_create ∷ [];
}

exec-Conforms_example :
    let (r, s) = exec bench bench_env 10 (request mdb_tx 0 (1 ∷ 2 ∷ [])) open_session in
    Conforms mdb_tx (view open_server) r s
exec-Conforms_example =
    exec-Conforms bench bench_env 10 (request mdb_tx 0 (1 ∷ 2 ∷ [])) open_server
      (wave_create ∷ wave_create ∷ [])

exec-Reports_example :
    let (r, s) = exec bench bench_env 10 (request mdb_open 0 (15 ∷ [])) open_session in
    Reports r s.response
exec-Reports_example =
    exec-Reports bench bench_env 10 (request mdb_open 0 (15 ∷ [])) open_server
      (wave_create ∷ wave_create ∷ [])

driver_owned : IsClean bench 1 open_session
unfolding bench created deleted from_id
driver_owned = refl

exec-IsClean_example :
    let (r, s) = exec bench bench_env 10 (request mdb_open 0 (15 ∷ 14 ∷ [])) open_session in
    Post (λ _. IsClean bench 1) (IsClean bench 1) r s
exec-IsClean_example =
    exec-IsClean bench 1 bench_env 10 (request mdb_open 0 (15 ∷ 14 ∷ [])) open_session driver_owned

full_driver : HasFull open_server.mdb
full_driver = refl

pub bench-Sized : Sized bench_env
bench-Sized h = refl

exec-Carries_example :
    let (r, s) =
      exec bench bench_env 10
        (request mdb_tx 0 (1 ∷ 2 ∷ []))
        (fresh open_server (wave_create ∷ wave_create ∷ [])) in
    Carries bench bench-Serial (wave_create ∷ wave_create ∷ []) mdb_tx false (1 ∷ 2 ∷ []) r s
exec-Carries_example =
    exec-Carries bench bench-Serial bench_env 10 (request mdb_tx 0 (1 ∷ 2 ∷ [])) open_server
      (wave_create ∷ wave_create ∷ []) bench-Sized full_driver

exec-mocked_example :
    (exec mock bench_env 10 (request mdb_reset 200 []) (fresh echoing [])).1.response.status
    ≡ mocked mdb_reset [] true
exec-mocked_example = exec-mocked bench_env refl 10 [] (request mdb_reset 200 []) echoing refl

exec-resets_example :
    let (r, s) = exec bench bench_env 10 (request mdb_reset 200 []) (fresh open_server []) in
    HasReset bench driver 200 [] r s
exec-resets_example =
    exec-resets bench bench_env 10 (request mdb_reset 200 []) open_server driver [] refl refl
