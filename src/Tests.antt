-- ===== src/Tests.antt =====
-- Inputs on which the theorems and the operations are run.
mod Fixtures
mod Manager
mod Matching
mod Recognition
mod Connections
mod Answering
mod Settings
mod Protocol
mod Spoken
mod Started
mod Recorded
