-- ===== src/Router/Classify/Tests.antt =====
-- The classification of concrete requests.
