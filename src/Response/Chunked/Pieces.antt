-- ===== src/Response/Chunked/Pieces.antt =====
-- t
