-- ===== src/Url.antt =====
-- src/urllib3/util/url.py: the normalisation of paths.
pub mod Path
