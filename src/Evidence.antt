-- ===== src/Evidence.antt =====
-- pebs/evidence.py: claims, sources, assessments and human review.
pub mod Whitespace
pub mod Rows
pub mod Claims
pub mod Sources
pub mod Assessments
pub mod Support
pub mod Listings
