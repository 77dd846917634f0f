-- ===== src/Collections.antt =====
-- src/urllib3/_collections.py: the containers that the pools and the messages are built on.
pub mod RecentlyUsed
pub mod HeaderDict
