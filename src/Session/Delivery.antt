-- ===== src/Session/Delivery.antt =====
-- The sending session against the receiving framer: which messages the packets on the wire carry.
pub mod Carries
pub mod Queue
pub mod Tracking
pub mod Runs
