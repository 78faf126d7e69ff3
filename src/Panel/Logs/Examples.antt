-- ===== src/Panel/Logs/Examples.antt =====
-- A log of one line and an error.
