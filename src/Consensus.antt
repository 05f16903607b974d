-- ===== src/Consensus.antt =====
-- validator/src/consensus/engine.ts: the rounds in which validators collect signatures. Each operation
-- returns the engine that it leaves and the effects that it has, in order; what listens to them runs
-- after the operation.
pub mod State
pub mod Deciding
pub mod Attesting
pub mod Rounds
pub mod Receipts
pub mod Runs
pub mod Replay
pub mod Progress
mod Tests
