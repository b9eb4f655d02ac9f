-- ===== src/Examples.antt =====
-- Tests of the definitions, and the properties applied at concrete inputs.
mod Library
mod Conversation
mod Crypto
mod Buffers
mod Agent
mod Auth
mod Process
mod Programs
mod Pins
mod Request
