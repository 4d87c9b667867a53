-- ===== src/Policy.antt =====
-- internal/policy: what statements do, and the envelope that a human grants.
pub mod Classify
pub mod Target
pub mod TargetLaws
pub mod Envelope
