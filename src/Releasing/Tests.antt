-- ===== src/Releasing/Tests.antt =====
-- A concrete run of the releasing loop, and the theorem applied to it.
