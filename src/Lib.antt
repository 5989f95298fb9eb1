-- ===== src/Lib.antt =====
-- Verification of the web server framework: the buffers, connections, event loops, threads and the
-- cache of `core`, the HTTP layer of `http`, and the HTTP server program in `demo`.
--
-- How the parts work together: a server has one listening loop and a number of loops that run on the
-- threads of a pool. The acceptor takes new clients from the kernel and gives each to one loop, which
-- owns its connection from then on. The poller of a loop reports the connections that have something
-- to read, and the loop calls the function that each of them holds. For the HTTP server this function
-- reads from the socket into a buffer (`Connection::Receive`), pops whole requests up to an empty
-- line (`FindAndPopTill`), parses them (`Request`, `Header`, over `Split`, `Join`, `Trim`) and
-- answers each with a `Response` head and a file, from the cache or the disk, or with the output of
-- a program that `CGIRunner` runs; the answer is written to a second buffer and sent
-- (`Connection::Send`).
--
-- Which file models which part:
--   Text: what the sources use of `std::string`, `std::string_view` and `std::to_string`. A text
--     is the list of its bytes, a position is an `Option` (`none` is `npos`). `StringView` keeps
--     the bytes behind a view, since `data()` reads on there.
--   Outcome: a value, or the end of the process, for functions that may not throw.
--   Core/Result: a value, an exception with its text, or the end of the process.
--   Core/Buffer: src/core/buffer.h, src/core/buffer.cc. One function for each method.
--   Core/Connection: src/core/connection.h, src/core/connection.cc. The results of `recv` and
--     `send` are a list, one for each call; `none` means that the loop still runs at its end.
--   Core/Cache: src/core/cache.h, src/core/cache.cc. The nodes are maps from addresses. Links,
--     Keys, Repr, Load, Evict and Insert are the lemmas on the list and the map; Entries is the
--     abstract cache, a list of entries with the least recently used one first; Lru and Start
--     relate the two, and History is about any row of operations. Race takes the statements of two
--     threads in `TryLoad` one by one, in any order.
--   Core/NetAddress: src/core/net_address.h, src/core/net_address.cc, over a record `Inet` of the
--     conversions of `<arpa/inet.h>`.
--   Core/Socket: src/core/socket.h, src/core/socket.cc, over a record `Kernel` of the answers of
--     the system calls. The calls of `close` are a list of descriptors.
--   Core/ThreadPool: src/core/thread_pool.h, src/core/thread_pool.cc. `Step` is one step of one of
--     the threads, and `Reach` any row of steps.
--   Core/Poller: src/core/poller.h, src/core/poller.cc.
--   Core/Looper: src/core/looper.h, src/core/looper.cc. The connections that exist are a map from
--     addresses, so that a call through a pointer that dangles is a fault. Clients is about loops
--     whose functions may end with `DeleteConnection` for their own connection.
--   Core/DistributionAgent: src/core/distribution_agent.h, src/core/distribution_agent.cc, over a
--     generator of numbers.
--   Core/Acceptor: src/core/acceptor.h, src/core/acceptor.cc. `accept` is the function that
--     `SetOnAccept` gives to the listening connection. Traffic puts it together with the loops that it
--     gives clients to.
--     Listening is about the listener that the constructor leaves: the acceptor's connection is one
--     of the connections that exist there.
--   Core/Server: src/core/server.h, src/core/server.cc.
--   Http/Constants: src/http/constants.h.
--   Http/Utils: src/http/http_utils.cc (`Split`, `Join`, `Trim`, `ToUpper`, `Format`, `ToMethod`,
--     `ToVersion`, `ToExtension`, `ExtensionToMime`, `IsCGIRequest`).
--   Http/Disk: the functions of src/http/http_utils.cc that ask the file system, over a record of
--     its answers.
--   Http/Header: src/http/header.h, src/http/header.cc.
--   Http/Request: src/http/request.h, src/http/request.cc. The constructor is `parse_request`.
--   Http/Response: src/http/response.h, src/http/response.cc. The constructor is `make_response`.
--     Laws is about its headers, and Lines about the text that a client reads.
--   Http/CgiRunner: src/http/cgi_runner.h, src/http/cgi_runner.cc (`ParseCGIRunner`, `BuildArgv`);
--     `CGIRunner::Run` is in Http/CgiRunner/Run, over a record `Os` of what the system answers.
--   Logger: src/log/logger.h, src/log/logger.cc. `Step` is one step of a caller or of the thread that
--     writes; the threads and the clock are free in their choice.
--   Demo/HttpServer: demo/http-server/http_server.cc, `ProcessHttpRequest` and the handlers. The
--     cache is an interface, Demo/ResourceCache, which Demo/LruStore fulfils with Core/Cache. Main is
--     the function `main`, from the parsed command line up to the loop of the listener. Client puts
--     `ProcessHttpRequest` under the event loop (it fits there by Client/Same), Client/Session over
--     many reports of one client, and Client/Arrival under the acceptor as well.
--   Tests: the theorems at concrete inputs. Tests/Units: the test cases of test/core and test/http
--     that need no thread and no network, and the messages of test/core/connection_test.cc.
--
-- Fuel and bounds: the loop of `Split` has one round more than the text has bytes; the loop that
-- makes room in the cache has one for each entry of the map, which each round makes smaller; the
-- loop over the requests of a client has one round more than the read buffer has bytes, of which
-- each round pops some. Every other loop recurs on a list. `to_string` has 20 digits, enough for a
-- 64-bit `size_t`. Sizes of texts are plain numbers, since they are bounded by memory, except
-- where the source adds one to `npos`; the difference of capacity and occupancy and the number of
-- candidates less one wrap around as `size_t` does.
--
-- Not modelled: the capacity of a vector, the streams behind the `operator<<`, what
-- `std::toupper` does outside of the "C" locale, the futures of submitted tasks, how cxxopts reads
-- the command line, a client that is added to a loop in the middle of a round, and two threads in
-- the cache at once but for the links that two loads change.
pub mod Prelude
pub mod Text
pub mod Outcome
pub mod Core
pub mod Http
pub mod Logger
pub mod Demo
pub mod Tests
