-- ===== src/Flash/Segment.antt =====
-- The segments of the image on a set of ROCs: `eraseSegment`, `writeSegment`, `verifySegment`.
pub mod Legacy
pub mod Write
pub mod ReadBack
