-- ===== src/Service/Tests.antt =====
-- Answers of a concrete server.
