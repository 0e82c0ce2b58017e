-- ===== src/Tests/Profile.antt =====
-- Loading a profile, on a small one.
