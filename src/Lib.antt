-- ===== src/Lib.antt =====
-- A verification library for urllib3, the HTTP client in src/urllib3: its containers, its retry
-- policy, its timeouts, the queue of a connection pool, its request loop, the framing of bodies
-- that are sent and read, the cache of pools of a pool manager, and the normalisation of paths. A pool
-- manager keeps its pools in a `RecentlyUsedContainer`, a request carries its headers in an
-- `HTTPHeaderDict`, and the request loop of a pool takes a connection from the queue, asks a `Retry`
-- object after each attempt whether one more is allowed and how long to wait, and a `Timeout` object
-- how long the attempt may take. A connection sends a body, whole or in chunks, and a response reads
-- one in chunks.
--
-- Shared modules:
--   Prelude       lists, Boolean tests, equality as an instance, integers, texts as lists of
--                 code points with the parts of Python's `str` that the code uses, and numbers in
--                 hexadecimal (`Hex`: `%x` and `int(…, 16)`)
--   Dict          Python's insertion-ordered dictionaries and their laws
-- Components:
--   Collections   src/urllib3/_collections.py
--     RecentlyUsed  `RecentlyUsedContainer`. Each method runs under the lock, so it is one function
--                   from the old container to the new one; calls of `dispose_func`, made after the
--                   lock is released, are values handed back. `Call` and `run` are histories of calls
--                   by any number of threads, in the order in which they get the lock.
--     HeaderDict    `HTTPHeaderDict` and its item view, with the stored lists in `Fields`. `Edit`
--                   names the methods that change a dictionary.
--   Exceptions    src/urllib3/exceptions.py: the classes with their bases, the attributes that are
--                 read elsewhere, and `Outcome`, a value or a raised error
--   Retry         src/urllib3/util/retry.py: the counts (`Counts`), construction and `new` (`Retry`),
--                 `increment` (`Increment`), back-off (`Backoff`), `Retry-After` and the sleeps
--                 (`Waiting`); the response's side of it, `get_redirect_location`, is from
--                 src/urllib3/response.py
--   Timeout       src/urllib3/util/timeout.py
--   Pool          src/urllib3/connectionpool.py: the LIFO queue of `HTTPConnectionPool` with
--                 `_get_conn`, `_put_conn` and `close`. `Leases` has the clients: `Step` is one call
--                 by any client, `Reach` the states that calls in any order lead to.
--   Manager       src/urllib3/poolmanager.py: pool keys and the cache of pools of a `PoolManager`
--   Url           src/urllib3/util/url.py: `_remove_path_dot_segments` (`Path`)
--   Request       src/urllib3/connectionpool.py: the request loop. `Body` is the file position of a body
--                 (src/urllib3/util/request.py), `Exchange` is `_make_request` and its errors,
--                 `Arguments` the start of `urlopen` (with src/urllib3/util/proxy.py) and `Loop` the
--                 rest. One call of `urlopen` is one attempt, and a call of itself at its end is the
--                 next. `Turn` is what the environment does in an attempt, and `loop` runs over a list
--                 of turns; `none` says that the list was too short.
--   Connection    src/urllib3/connection.py: `request`, the framing headers and the body that it sends,
--                 with `body_to_chunks` of src/urllib3/util/request.py
--   Response      src/urllib3/response.py: the buffer of decoded bytes, `BytesQueueBuffer` (`Buffer`);
--                 what a response reads from, its decoder and `_error_catcher` (`Stream`); and
--                 `read_chunked` (`Chunked`), a generator that is run to its end
-- A Python method that may raise returns an `Option` where `KeyError` is the only error, and an
-- `Outcome` elsewhere. `Tests` modules hold test runs and the examples of the theorems.
--
-- Bounds: Python's integers are unbounded, and so are the model's. Every loop is a recursion on
-- a list or on a number. There is fuel in `is_subclass`: seven levels, and no class has more than
-- seven between it and `Exception`; in `hex`, one more than the number, which has fewer digits; and in
-- `read_chunked`, where each turn takes a byte, unless the decoder has something left to give, so that two more than
-- the bytes to come are enough for a decoder that never has.
--
-- Not modelled: floats (a time is a whole number of a fixed unit), names outside Latin-1 where case
-- matters, Python's limit on the digits of an integer, messages, pickling, `repr` and logging. The
-- parser of HTTP dates, the clocks, the default socket timeout and the random draw are arguments.
-- The constructors of connections and pools are taken to succeed, and a thread that waits for a slot takes its
-- step when it gets one or when its time is up. Connections are given by what their methods return or
-- raise, and a response by the bytes that still come and by what comes after them. The decompression
-- libraries are an argument, `Coding`, and so are the values of keyword arguments of pools, `Values`, and
-- `http.client`, `HttpClient`. A request context is a dictionary of the caller, which making a pool
-- changes, so it is handed back with the pool.
-- The requests of a pool manager, the parsing of URLs but for paths, the other parts of reading a
-- response, sockets, TLS, HTTP/2 and the contributed back ends are not modelled.
pub mod Prelude
pub mod Dict
pub mod Collections
pub mod Exceptions
pub mod Retry
pub mod Timeout
pub mod Pool
pub mod Response
pub mod Connection
pub mod Manager
pub mod Url
pub mod Request
