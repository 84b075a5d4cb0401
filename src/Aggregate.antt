-- ===== src/Aggregate.antt =====
-- internal/aggregate: many backends as one.
pub mod Name
pub mod Uri
pub mod Listen
pub mod Surface
pub mod Gateway
