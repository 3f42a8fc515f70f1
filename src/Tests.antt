-- ===== src/Tests.antt =====
-- Concrete runs and instances of the theorems: a bench of hardware that answers, and a protobuf
-- library over lists of messages.
mod Bench
mod Waves
mod Server
mod Driver
mod Serve
mod Waiting
mod Live
mod Returns
mod Succeeds
mod Sys
