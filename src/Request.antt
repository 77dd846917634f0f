-- ===== src/Request.antt =====
-- The request loop of a connection pool: `urlopen` and `_make_request` of
-- src/urllib3/connectionpool.py, with the parts of src/urllib3/util/request.py and
-- src/urllib3/util/proxy.py that they call.
pub mod Body
pub mod Exchange
pub mod Arguments
pub mod Loop
pub mod Slots
pub mod Judged
pub mod Client
pub mod Moves
pub mod Attempts
pub mod Ends
pub mod Headers
pub mod Unsafe
pub mod Redirects
pub mod Bodies
pub mod SeeOther
pub mod Tests
