-- ===== src/Features.antt =====
-- src/rex/features: the features that are built from the history before a row.
pub mod PointInTime
pub mod Numbers
pub mod Tallies
pub mod Dated
pub mod TemporalOrder
pub mod MultiFeedback
pub mod CandidateRecency
pub mod Calendar
pub mod RepeatExposure
pub mod Recency
pub mod TemporalAggregates
