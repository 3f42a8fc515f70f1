-- ===== src/Server/Client.antt =====
-- A client that opens the driver and sends a request to a device.
use vender.Prelude.{
  ℕ, some, ◌+◌, ◌*◌, ◌^◌, ◌≤◌, ◌<◌, ◌≡◌, ap, ◌∙◌, false, List, [], ◌∷◌, ◌++◌, length,
}
use vender.Exec.Gives.{Gives}
use vender.Ffi.{History, Hardware}
use vender.Ffi.Clock.{Clock}
use vender.Mdb.{block_max_length}
use vender.Mdb.Driver.{Env}
use vender.Mdb.Driver.Safe.{HasStep}
use vender.Mdb.Live.Device.{Answering}
use vender.Mdb.Receive.Words.{Word, Serial}
use vender.Mdb.Transfer.Gives.{Coming, Answer, IsPrompt, IsPrompt-between}
use vender.Mdb.Transfer.Judged.{judged-Closes}
use vender.Mdb.Transfer.Sized.{Sized}
use vender.Server.{Request, mdb_open, mdb_tx, ok_status, Server, Session, mdb_timeout, exec}
use vender.Server.Data.{fresh}
use vender.Server.Opens.{exec-opens}
use vender.Server.Serves.{opened, exec-serves}

-- The first request is answered OK, and the second one, on the server that the first has left,
-- OK with these bytes.
abbrev pub BothServed :
    (H : Hardware) (E : Env) (fuel : ℕ) (opening sending : Request) (bytes : List ℕ)
    → Session
    → Type 0
BothServed H E fuel opening sending bytes s =
    (s₁ : Session) × (s₂ : Session) × Gives (exec H E fuel opening) s tt s₁
    × (s₁.response.status ≡ ok_status)
    × Gives (exec H E fuel sending) (fresh s₁.server s₁.history) tt s₂
    × (s₂.response.status ≡ ok_status)
    × (s₂.response.data_bytes ≡ bytes)

-- MDB_OPEN and then MDB_TX are both answered OK, the second with the bytes of the device's
-- response, on any server that is no mock, if the bus and the device answer in time. The first
-- request has two pins, the second from 1 to 39 bytes. The variable for the wait step is unset or a
-- positive number that fits a u32, the buffer begins as an array of its size, and the waits have
-- 2 ^ 32 rounds, which is no less than the words that are still to come. No call fails; the clock and
-- the reads are as documented. The words to come are the block of `bytes` and its checksum, or an
-- ACK if `bytes` is empty; every wave is out `air` microseconds after it is sent, and from
-- `arrival` microseconds after the latest send on, each read finds something while words are
-- missing. The waits are long enough for both, and the transfer ends before the tick wraps, whether
-- it begins at the time of the first request or 14 times the jitter later.
pub exec-serves_at_once :
    (H : Hardware) (C : Clock H) (S : Serial H) (words : List Word) (air arrival : ℕ)
    (A : Answering H C words air arrival) (fuel : ℕ) (E : Env) (sized : Sized E) (set : HasStep E)
    (rx tx : ℕ) (server : Server) (opening sending : Request) (h : History) (bytes : List ℕ)
    (a : Answer H words [] bytes h)
    → 0 < set.0
    → 2 ^ 32 ≤ fuel
    → server.mock ≡ false
    → opening.command ≡ mdb_open
    → opening.arg_bytes ≡ rx ∷ tx ∷ []
    → sending.command ≡ mdb_tx
    → 0 < length sending.arg_bytes
    → length sending.arg_bytes < block_max_length
    → length a.coming.rest ≤ fuel
    → IsPrompt C.jitter air arrival set.0 (length a.coming.rest) (C.now h) mdb_timeout
    → IsPrompt C.jitter air arrival set.0
        (length a.coming.rest)
        (C.now h + 14 * C.jitter)
        mdb_timeout
    → BothServed H E fuel opening sending bytes (fresh server h)
exec-serves_at_once H C S words air arrival A fuel E sized set rx tx server opening sending h bytes
      a positive big no_mock opens pins sends some_bytes short few early late =
    let (s₁, done, (valid, empty, (m, is, (for_rx, for_tx, paced, full)), (same, later, soon))) =
      exec-opens H C E A.sound sized fuel rx tx server set opening h opens pins in
    let coming : Coming H words [] bytes a.end_byte s₁.history = record {
      rest = a.coming.rest;
      all = ap (λ ws. ws ++ a.coming.rest) same ∙ a.coming.all;
      found = a.coming.found;
    } in
    let now =
      IsPrompt-between C.jitter air arrival set.0 (length a.coming.rest) (C.now h)
        (C.now h + 14 * C.jitter) (C.now s₁.history) mdb_timeout early late later soon in
    let answers =
      exec-serves H C S words air arrival A set.0 fuel E sending server.running m s₁.history bytes
        a.end_byte coming positive big sends some_bytes short full paced few now in
    let (s₂, done', (valid', carried), _) =
      rw (judged-Closes a.end_byte bytes a.closes) at answers in
    let left : s₁.server ≡ opened server.running m =
      is ∙ ap (λ b. record server { mdb = some m; mock = b }) no_mock in
    (s₁, s₂, done, valid, rw left done', valid', carried)
