-- ===== src/Tests/Settled.antt =====
-- An upload whose message cannot be published, up to its answer.
