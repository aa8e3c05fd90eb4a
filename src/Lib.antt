-- ===== src/Lib.antt =====
-- ahara-collector: the service that collects readings on the home network, keeps them in spools on
-- disk and hands them out over one HTTP port.
--
-- The parts and their files. A path of the repository follows each; `Spool::append` of the source is
-- `append` of Spool/Model.antt, and so on with the same words.
--   Json (service/src/json.rs): the document (Syntax), the serializer (Printer), and the parser
--     (Strings, Numbers, Parser). A text is the list of its Unicode scalar values. A `f64` is a
--     parameter, the record `Floats`, with the functions of it that the program calls.
--   Spool (service/src/spool.rs): names of segments (Names), a directory as a list of files (Disk),
--     and `Spool` with its operations (Model). Each operation holds the mutex from its first read to
--     its last write, so it is one function from the state to a result and the state after it. The
--     calls of `std::fs` fail only for a missing file; the closed segments are counted in natural
--     numbers, and the theorems that read a name back ask for a number below 10 ^ 16.
--     Queue is the abstract view of a spool, numbered closed parts and an open one.
--   SpoolSet (service/src/spool.rs) and Maps: a spool for each module. A shared handle to a spool is
--     put back into the set after each operation on it.
--   Envelope (service/src/envelope.rs): the lines of the spools, and what is accepted of pushed ones.
--   Crypto (service/src/crypto.rs): Words, Hash, Aes, Cbc, Base64, Compare. Words are numbers with
--     their wrap-around written out.
--   Config (service/src/config.rs): CIDR blocks, configuration and credentials.
--   Metrics (service/src/metrics.rs): counters, the gauges of the host (Gauges), and their text.
--   Http (service/src/http.rs): requests and responses, the lines of a head (Lines), the reader of
--     requests (Server) and the client (Client). A connection is the bytes that it sends; the network
--     of the client is a function from the bytes sent to an address to the bytes that come back.
--   Ssdp (service/src/ssdp.rs): leases, messages, one step of the responder, and what the threads
--     send (Threads).
--   Sensors (service/src/sensors.rs): discovery, polls and rounds of the environment sensors.
--   Kasa (service/src/kasa.rs): discovery and readings of the plugs, the KLAP session (Session) and
--     the polls with their sessions (Poll). A sequence number is the 32 bits of an `i32`. The seeds of
--     new sessions are arguments.
--   Wiim (service/src/wiim.rs): the inventory, its JSON and its file, descriptions (Description), the
--     transport (Transport) and rounds of discovery (Discovery). URLs, XML and the HTTP clients are
--     the records `Libraries` and `Web`. The thread's own list and the shared inventory are two
--     states, as in the source, where each overwrites the other.
--   Net: IPv4 addresses and URLs.
--   Api (service/src/api.rs): State, Auth, Readings, Ingest, Lease, Routes, and one connection
--     (Server). A handler is a function from the state to a response and the state after it. The
--     clock and the parameters of Wiim are fields of `Setup`.
--   Start (service/src/main.rs): the start-up over a file system that is a parameter, up to the setup
--     and the first state of the API.
--   Prelude: shared names, lists, options, results, UTF-8, decimal numbers and the methods of `str`
--     that the program calls.
--   Examples: the inputs of the source's tests, run, and each result below at a concrete input.
--
-- Fuel. `parse` gives `parse_value` twice the length of its input and two, one unit for each call;
-- that is enough for every input. `parse_string` and the decoder of UTF-8 take one unit for each
-- character or byte and get the length. `enforce_cap` takes one unit for each file of the directory,
-- since each round removes one.
--
-- Not modelled: sockets, threads, sleeping and signals, which are input and output; the random source.
-- The texts of error messages are left out, and saving the WiiM inventory does not fail.
mod Prelude
pub mod Json
pub mod Spool
pub mod Crypto
pub mod Envelope
pub mod Config
pub mod Maps
pub mod Net
pub mod SpoolSet
pub mod Metrics
pub mod Http
pub mod Ssdp
pub mod Sensors
pub mod Kasa
pub mod Wiim
pub mod Start
pub mod Api
mod Examples
