-- ===== src/Response.antt =====
-- src/urllib3/response.py: the buffer of decoded data.
pub mod Buffer
pub mod Stream
pub mod Chunked
