-- ===== src/Promotion/Gtid.antt =====
-- The count behind the GTID score, and the sets that it compares.
