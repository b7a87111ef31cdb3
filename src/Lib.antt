-- ===== src/Lib.antt =====
-- s3cpp is a client library for Amazon S3 with a tool on top of it that lists a whole bucket in
-- parallel. The development models the parts that carry logic of their own.
--
-- Prelude.antt: texts as lists of bytes, results with errors and exceptions as values, and lemmas on
--   lists and tests. Std.antt: what the program uses of the C++ library: decimal numbers, sizes modulo
--   2 ^ 64, `std::map`, and coroutines that await calls with an error code (Calls.antt).
-- Iam.antt: lib/aws/iam. Urlencode.antt is urlencode.cpp, Canonicalize.antt is canonicalize.cpp, and
--   Signature.antt is string_to_sign.cpp, sign_request.cpp and include/s3cpp/aws/scope.hpp. Boost.URL
--   (BoostUrl.antt), Boost.Beast (Http.antt) and Botan (Botan.antt) are interfaces: records of the
--   operations that are called, and records of their documented behaviour.
-- S3.antt: lib/aws/s3. Types.antt and Parameters.antt are types.hpp and client.hpp, Query.antt builds
--   the query of a request, Parse.antt reads an answer (types.cpp, client/list_objects.cpp and
--   client/list_buckets.cpp), and Client.antt joins the two over a session. Session.antt is the target
--   and the preparation of a request, Stream.antt the connection with and without TLS
--   (session_extra.cpp) and Exchange.antt the request and its answer (session.cpp). DnsCache.antt is
--   dns_cache.cpp; DnsCache/Callers.antt interleaves its calls, and Callers/Refines.antt leads from the
--   code of a call to its steps. Online.antt puts a client over a session. pugixml and Boost.Describe
--   (Xml.antt), the resolver, the clock and the operations of Boost.Asio, Boost.Beast and OpenSSL on a
--   stream are interfaces.
-- ListAllObjects.antt: src/tools/list_all_objects. Misc.antt is misc.hpp and the state that the
--   workers share. Queue.antt is the priority queue of prefixes, Worker.antt the critical sections of
--   worker.cpp, Worker/Json.antt its JSON, and Process.antt its loops over the network: retries, the
--   pages of a prefix, and work. Tree.antt is the listing that a run is compared with. Crew.antt
--   interleaves any number of workers, one access of the shared state at a time, where what is done
--   under the lock of the queue is one access. Crew/Alone.antt is one worker with the network that
--   answers it, and Crew/Refines.antt leads from the code of a worker to its steps. Manager.antt is the constructor of
--   worker_manager.cpp, its spawning of a worker and a round of the destructor's loop,
--   Manager/Scaling.antt its scaling, with Scaling/Steps.antt for the coroutine that does it, and
--   Manager/Writer.antt the coroutine that writes. Life.antt is the whole of a `WorkerManager`:
--   the crew, both coroutines and the destructor interleaved over what they share, from the
--   constructor until the pool is joined; the modules below it lead from its steps to those of
--   the crew (Parts.antt) and of the writer (Written.antt). Online.antt puts a worker over the
--   client of S3/Client.antt. Main/Statistics.antt is the thread that prints statistics.
--   Options.antt and Main.antt are list_all_objects.cpp. Boost.JSON, Boost.Program_options, the
--   files, floating-point numbers and the rolling mean are interfaces.
-- Tests.antt: stand-ins for the interfaces that behave as documented, and runs.
--
-- Names are the source's, in lower case with underscores. A function of the source that changes
-- shared state is a function from the state to the state. A coroutine that awaits the network takes
-- the network's state and gives it back. Counters are natural numbers with the wrap at 2 ^ 64 written
-- out. A priority queue is a list in the order of depth; among entries of one depth the first stands
-- for whichever entry the program's heap has on top.
--
-- `process_prefix` and `work` run on fuel, since the server decides how many pages and prefixes there
-- are: a run of n pages needs n rounds of `process_prefix`, and `work` needs one round for each prefix
-- and what the longest run of pages needs. The steps of a crew stand for runs of any length.
-- `get_endpoint` runs on fuel, since each round reads the clock again; two rounds are enough where it
-- moves no more than a minute between two readings. Where its fuel is spent a call of a session gives
-- no answer, and a client over it shows an exception. Decimal digits are made in 20 steps, enough for
-- every number below 2 ^ 64. All else is structural.
--
-- Not modelled: the threads of the pool, in whose place stands the arbitrary order of steps, of
-- which the emission of a signal is one; what the libraries do behind their interfaces; messages
-- on the standard output and error, except the values of the line of statistics; a failure to
-- allocate. A call of `value()` on a target that does not parse throws.
pub mod Prelude
pub mod Std
pub mod Iam
pub mod S3
pub mod ListAllObjects
pub mod Tests
