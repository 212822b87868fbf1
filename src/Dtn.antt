-- ===== src/Dtn.antt =====
-- core/dtn and hub/internal/dtnengine: the store-and-forward queue.
pub mod Queue
pub mod Engine
