-- ===== src/Trust.antt =====
-- core/trust: the sighting and endorsement tables, and the score of a node.
pub mod Score
pub mod Store
