-- ===== src/Examples.antt =====
-- Tests: the properties applied to concrete inputs.
mod Data
mod Encoding
mod Process
mod Tracing
mod Tables
mod Scripts
mod Hooked
mod Failing
mod Wires
mod Runs
mod Serving
mod Sending
