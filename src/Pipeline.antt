-- ===== src/Pipeline.antt =====
-- tools/nanorix-verify/src/lib.rs: `verify_auditproof`, the stages of the verification in their
-- order. `Verdict` has the result types, `Gates` the checks before the chain walk, `Walk` the chain
-- walk and the checks after it, `Anchor` the signature stages.
pub mod Verdict
pub mod Gates
pub mod Walk
pub mod Anchor
pub mod Verify
pub mod Accepted
pub mod Stages
pub mod ChainFacts
pub mod Pins
pub mod Tests
