-- ===== src/Lib.antt =====
-- LoRaDB, a database for LoRaWAN frames: a model of its storage, query language, tokens and ingest,
-- and their correctness.
--
-- A frame that arrives is registered with its device, appended to a write-ahead log and put into an
-- ordered memtable; a full memtable is written as a sorted table file and the log is truncated; too
-- many tables are merged by compaction; a query reads the memtable and every table and sorts by time.
-- A request over HTTP is authenticated by an API token or a signed token; its handler parses a query and
-- executes it, or parses the message of a network server and writes its frame.
--
-- Files and sources (paths from the repository's root):
--   Prelude and its children: lists, options, results, orders, integers and ordered association maps.
--   Model.Text: texts as their code points. Model.Json: JSON values as serde_json has them.
--   Model.Lorawan: src/model/lorawan.rs and the kinds of errors of src/error.rs.
--   Model.Frames: src/model/frames.rs, src/model/gateway.rs, the payload of src/model/decoded.rs.
--   Engine.Payload: the serde adapters of src/model/decoded.rs.
--   Model.Device (History): src/model/device.rs, the registry of devices.
--   Engine.Bytes: little-endian words and `read_exact` on byte sequences.
--   Engine.Bloom: src/util/bloom.rs.
--   Engine.Memtable (Keys, Scan, History, Delete): src/engine/memtable.rs.
--   Engine.Wal (Entry, Torn, Log, Replay, Truncate): src/engine/wal.rs.
--   Engine.SsTable (Writer, Reader; Stored, Written, RoundTrip, Reopen, Scan, Table):
--     src/engine/sstable.rs.
--   Engine.Compaction (Merge, Ids): src/engine/compaction.rs.
--   Storage (Query, Write, Flush, Registry): `write`, `flush_memtable`, `compact` and `query` of
--     src/storage/mod.rs. Storage.Interleaving (Durable, Runs): its writers and a flush as steps.
--     Storage.Deletion (Counts): its `delete_device` and `shutdown`.
--     Storage.Recovery (Frames): its `new`.
--   Storage.Policies: src/storage/retention_manager.rs. Storage.Retention: `enforce_retention` of
--     src/storage/mod.rs.
--   Query (Dsl, Project, Executor): src/query/dsl.rs, src/query/executor.rs, and the JSON part of
--     src/model/decoded.rs. Query.Lexer (Tokens, Step, RoundTrip) and Query.Parser (Durations,
--     Printer, RoundTrip, Bounds): the tokenizer and the parser of src/query/parser.rs.
--   Security.ApiToken (Lifecycle, Revocation, Persistence): src/security/api_token.rs.
--   Security.Jwt (Refresh): src/security/jwt.rs.
--   Api.Middleware (Authentication, Headers): src/api/middleware.rs. Api.Handlers (Devices, Tokens,
--     Policies, Ingestion): src/api/handlers.rs.
--   Ingest (Common, ChirpStack, Ttn): src/ingest/common.rs, src/ingest/chirpstack.rs, src/ingest/ttn.rs.
--   Tests: runs of the definitions on small inputs.
--
-- State is a record and an operation a function from the state to the next one; an error is a value of
-- `Result`. Where an operation changes state before it fails, the state comes back beside the error.
-- Words keep their wrap-around at 2^32 and 2^64. A file is the list of its bytes. The clock is an
-- argument.
--
-- Parameters: bincode, lz4, crc32fast and the hash of the filters, the DefaultHasher of std
-- (Engine.Bincode and Engine.Codec), with what the code relies on as named laws: what was compressed
-- and the keys and filters that were serialised read back, a checksum is a 32-bit word, a serialised
-- frame can be read as some frame, and the size of a serialised filter depends only on the number of
-- its bits. That a frame reads back as itself is no law: serde_json, which the adapters of decoded
-- payloads go through (Engine.Payload), is built without float_roundtrip, and does not read every
-- number back as it was. A theorem that needs it asks it of the frames that it is about. The bits and
-- hash functions of a filter, which the source computes in floating point, are parameters too. So are
-- the Unicode classes of characters, the reading and printing of times and the bounds of durations and
-- times (chrono), SHA-256, serde_json and the signing of tokens (jsonwebtoken), each a record of
-- operations beside its user, with the laws that a theorem needs as its hypotheses.
--
-- Panics: `unwrap` on the time of a table file, at the start of an engine, and on durations and windows
-- of a query that chrono cannot represent, is a value of `Failure`. The compactions, flushes and
-- deletions of a running engine open files that it opened before or that it wrote with the current
-- time; the panic of opening is left out there.
--
-- Fuel: the replay of a segment has one round more than the segment has bytes, and each round that
-- goes on consumes bytes, so the fuel is never used up; the digits of an id have more fuel than the
-- id has digits. The tokenizer has one round more than the input has characters. The batch compaction
-- at the start has as many rounds as there are tables, and each round takes 99 names off the list.
--
-- Not modelled: background tasks, the interleaving of calls but for writers beside one flush, failures
-- of the file system but for a missing file or its end and for a file of API tokens that cannot be
-- written, the JSON file of the retention policies, encryption at rest, the routes of the HTTP server,
-- the MQTT client, and configuration.
pub mod Prelude
pub mod Model
pub mod Engine
pub mod Storage
pub mod Query
pub mod Security
pub mod Api
pub mod Ingest
pub mod Tests
