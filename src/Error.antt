-- ===== src/Error.antt =====
-- The errors of iodin: `mod error` in cmd/iodin/src/main.rs, and the `io::Error` that
-- hardware/pigpio-rust/src/lib.rs makes. Links that no modelled code raises (`Env`, `Fmt`,
-- `NumParse`, `StringUtf8`) have no constructor.
use vender.Prelude.{ℕ, String, ◌<>◌, List, show_hex, show_hex_list}

-- The `io::ErrorKind`s in use.
pub data IoKind : Type 0 where
  other timed_out : IoKind

pub data Error : Type 0 where
  -- `Error::from(&str)`
  msg : String → Error
  io_error : IoKind → String → Error
  -- an error of the protobuf library, with the text that it displays
  protobuf : String → Error
  mdb_nak : Error
  mdb_invalid_response : ℕ → Error
  mdb_checksum : (computed received : ℕ) → (response : List ℕ) → Error

-- `Error::to_string`, from the `display` clauses.
unfoldable pub to_string : Error → String
unfolding show_hex show_hex_list
to_string (msg text) = text
to_string (io_error kind text) = text
to_string (protobuf text) = text
to_string mdb_nak = "MDB received NAK, probably invalid command"
to_string (mdb_invalid_response b) = "MDB expected ACK/NAK, received unknown byte " <> show_hex b
to_string (mdb_checksum computed received response) =
    "MDB invalid checksum recv="
    <> show_hex received
    <> " comp="
    <> show_hex computed
    <> " response="
    <> show_hex_list response
