-- ===== src/Lib.antt =====
-- iodin, the process that drives a vending machine's MDB bus over the GPIO pins of a Raspberry Pi.
--
-- The vending machine (Go) starts iodin (Rust) and sends it protobuf requests over a pipe. iodin
-- opens the driver on two pins, resets the bus, and carries requests to the machine's devices and
-- their responses back. The bus has words of nine bits at 9600 baud, which the C library pigpio
-- sends as waves and samples on a pin; the Rust code sees it through generated bindings.
--
-- The files, and the code that each is about:
--
--   Prelude, Prelude/     lists, ℤ and decimal text over the native ℕ
--   Error                 the error type: error_chain! of cmd/iodin/src/main.rs
--   Exec, Exec/Keeps      code that changes a state, returns, fails, panics or runs out of fuel;
--                         rules for what holds before and after it; Exec/Ends and Exec/Safe
--                         have those for code that must not panic and must end, Exec/Gives
--                         those for runs that return a known value
--   Ffi                   the calls of the C library, and a `Hardware` that answers them
--   Ffi/Mock              hardware/pigpio-rust/src/mock.rs
--   Ffi/Clock             what the C library documents of time
--   Ffi/Waves             which waves a history of calls has created and deleted
--   PigpioSys             hardware/pigpio-sys/src/bindings-arm-linux.rs: C types and how repr(C)
--                         lays them out; Time, Locks, Threads and Gpio have the structs, the
--                         unions and the layout tests, Codes the error codes, Functions the
--                         declarations of pigpio.h, and of the mock
--   Pigpio                hardware/pigpio-rust/src/lib.rs; Quiet and Waves are its rules,
--                         Status is about what a status becomes, Busy about wave_busy_wait
--   Mdb                   cmd/iodin/src/mdb.rs: constants, GpioMdb, checksum
--   Mdb/Time              duration_as_micros32
--   Mdb/Bus               mdb_wave_create, mdb_wave_send_wait; Deadline is about its wait, Total
--                         about the end of both
--   Mdb/Driver            GpioMdb::new, close, bus_reset, drop; Reset is about bus_reset, Calls
--                         about what new has called, Opens about new on hardware that works, Safe
--                         about what does not panic; Parse is the parse of the standard library
--   Mdb/Receive           GpioMdb::wait_receive and the loop 'receive of GpioMdb::tx; Words and
--                         Stream are about the words that come in, Wait about the time, Total
--                         about the end of the loop
--   Mdb/Live              both waits on hardware that works; Device says what a device that
--                         answers does, Listen is about receiving from it, Steps about the rest
--   Mdb/Transfer          GpioMdb::tx; Frame is about what it sends, Correct about what it returns,
--                         Answers about the ACK and the NAK, Limits about its assertions, Total,
--                         Exchange and Returns about its end, Sized about the size of the buffer,
--                         Order and Sends about the waves that it sends, Judged says what it is
--                         to return, and Ending, Succeeds and Gives show that it does
--   Server                Server::new and Server::exec of cmd/iodin/src/server.rs, and the
--                         messages of protobuf/iodin.proto; Contract is the protocol,
--                         Data about what a response carries, Mocked about the mock,
--                         Reset about MDB_RESET, Opens, Serves and Client about requests on
--                         a bus that works, Returns about panics
--   Server/Run            Server::run; Talk is the conversation that it is to have, Protocol has
--                         its traces
--   Main                  run and main of cmd/iodin/src/main.rs; Exit is about the exit status
--   Tests                 concrete runs, and theorems at concrete inputs
--
-- The state of a component is a record: `GpioMdb` and `Server` have the fields of the source's
-- structs. A method takes the record and the history of the calls to the C library, and gives an
-- outcome with the state after it: `ok`, `err` for `Err`, `panicked` for a panic that unwinds, with
-- the drops of what is in scope, and `out_of_fuel`. The addition and multiplication of u32 panic on
-- overflow, as every profile of Cargo.toml asks; a bounds check that fails panics too.
--
-- The C library is a parameter. A `Hardware` says what each call returns, given all calls before
-- it, so that nothing is assumed of the clock, the pins or the bus. Three records state what
-- pigpio documents: `Serial`, that a read of nine bits stores as many bytes as it says, two for
-- each word, and no more than it has room for; `Clock`, that ticks count microseconds; `Delays`,
-- that a delay gives back how long it was. `Answering` is about a bus that works and a device
-- that answers: no call fails, a wave is out in time, and the words of the device come in time after
-- a send. The crate protobuf is a parameter as well: a record of the operations that the loop
-- calls, and `Framing` says what they do on a stream of whole messages, where a write or a flush may
-- fail.
--
-- Four kinds of loops take fuel: the wait for a wave, the wait for the first word, the rounds of the
-- loop 'receive, and the loop of wave_busy_wait, which iodin does not call; the loop of the server
-- takes a number of rounds. For the waits a round for each microsecond up to the deadline and one
-- more is enough, under a `Clock` or `Delays`, and for the server one round more than there are
-- requests. The loop 'receive looks at the clock only when nothing comes in, so a device that never
-- sends the ninth bit keeps it going; for a device that sends finitely many words, more rounds than
-- those are enough. Where the fuel is gone, the outcome is `out_of_fuel`.
--
-- Left out: the logger and its messages (that a debug message reads the clock is kept); of the
-- bindings, the C standard library's functions and the constants that the program does not use; the
-- generated protobuf code; the build scripts; and the Go and C code of the repository.
pub mod Prelude
pub mod Error
pub mod Exec
pub mod Ffi
pub mod PigpioSys
pub mod Pigpio
pub mod Mdb
pub mod Server
pub mod Main
mod Tests
