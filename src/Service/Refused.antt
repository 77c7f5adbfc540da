-- ===== src/Service/Refused.antt =====
-- What becomes of a change to a field that may not change: sandbox/core/src/service.rs.
