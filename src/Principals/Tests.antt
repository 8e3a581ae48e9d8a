-- ===== src/Principals/Tests.antt =====
-- The theorem over the stand-in for the library.
