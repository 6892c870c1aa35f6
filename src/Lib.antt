-- ===== src/Lib.antt =====
-- pktvisor: an agent that taps network streams and keeps their metrics in windows of a minute.
--
-- An input stream hands its events to handlers (src/StreamHandler.h). Each handler has a metrics
-- manager (src/AbstractMetricsManager.h), which counts the events in the bucket of the live
-- window, shifts the windows as the time stamps of the events pass, and gives single windows,
-- merges of several and the closed windows to the exporters. The buckets hold metric values
-- (src/Metrics.h, src/Metrics.cpp).
--
-- Modules:
--   Prelude            the names that all modules share, Boolean tests and lists over native numbers
--   Metrics.Counter    `timespec`, `Counter` and `Aggregate` of src/Metrics.h
--   Metrics.Quantile   `Quantile` of src/Metrics.h
--   Metrics.Rate       `Rate` of src/Metrics.h, with the two steps of the timer's callback
--   Metrics.Utf8       the rendering of label values of src/Metrics.cpp; Metrics.Utf8.Encoding, the
--                      encoding of scalar values that it should give
--   Window.Bucket      `AbstractMetricsBucket` of src/AbstractMetricsManager.h
--   Window.Sampling    `splitmix64`
--   Window.Manager     `AbstractMetricsManager`: its state, constructor and calls that change it
--   Window.Export      its OpenTelemetry export of closed windows
--   Window.Merge       its single windows and merges; Window.Merge.Cache, `window_merged_json`
--   Handler            `StreamMetricsHandler` of src/StreamHandler.h, and its metric groups
--   Serializer         `PrometheusSerializer` of src/PrometheusSerializer.h
--   Frames             `FrameSessionData` of src/inputs/dnstap/UnixFrameSession.h; Frames.Protocol, what
--                      its sessions should read
--   Transactions       `TransactionManager` of libs/visor_transaction/TransactionManager.h
--   Ports              `IpPort` of src/IpPort.cpp
--   Modules            `AbstractManager` of src/AbstractManager.h
--   Domains            `aggregateDomain` of libs/visor_dns/dns.cpp, and the public suffixes
--   Subnets            subnet matching and prefix lengths of libs/visor_utils/utils.cpp
--   Lru                `LRUList` of src/VisorLRUList.h
--   Config             `Configurable` of src/Configurable.h; Config.Yaml, its setting from YAML;
--                      Config.Hash, its hash
--   Taps               `TapManager` of src/Taps.cpp; Taps.Selector, the matching of tags;
--                      Taps.Document, the load from a text
--   Policies           the stores of inputs, handlers and policies, and how a policy of
--                      src/Policies.cpp starts and stops; Policies.Load, Policies.Rollback and
--                      Policies.Removal, the load of one policy, its rollback and the removal
--   Policies.Tracks    what stays true of the stores during a load, and the rollback from there
--   Policies.Loading   the steps of a load against that
--   Policies.Unload    what a removal should leave, name by name, and its steps against that
--   Tests              the theorems at concrete inputs
--
-- State is passed explicitly. A mutex makes a method one step, so a step is a call, and a history
-- is a list of calls in any order. `new_event` and `check_period_shift` release their lock between
-- their parts, so that the parts are steps too; the callback of the Rate's timer is two steps. The
-- front of the deque of buckets is the head of a list. Unsigned numbers wrap at 2 ^ 64 or 2 ^ 32
-- where the source adds them; the seconds of a time stamp do not wrap. The clock is an argument of
-- the code that reads it. An exception is a value.
--
-- The sketches of the datasketches library are a parameter, the record `KllSketch`. The metrics that
-- a derived class adds to a bucket are a parameter too, `BucketClass`, as are the JSON that it writes
-- into another (`JsonValue`), the buckets whose writing throws (`fails`), and the conversion of a
-- count to the type of a Rate's sketch (`narrow`).
--
-- libfstrm and the client's socket are the record `Fstrm`; the CSV reader is the list of its lines,
-- and `std::stoul` is a parameter; the table of public suffixes is an argument. A hash map is an
-- association list over keys whose comparison is sound, the record `Key`. A YAML document is the tree
-- that yaml-cpp gives of it, and its conversions of scalars are a parameter, as are std::hash and
-- std::to_string of a configuration's hash. Which calls into the plugins throw is the record
-- `Faults`, so that a load can throw at any of them; no stop throws.
--
-- The loop over the frames of a buffer recurses on fuel, the length of the buffer: a frame takes
-- four bytes at least, and more fuel gives the same. The loops over a text of Metrics.Utf8 recurse
-- on fuel, the length of the text: each round consumes a byte at least. A mask of 32 bits takes 32
-- rounds at most.
--
-- Not modelled: rendering as JSON and protocol buffers, the plugins and the protocol handlers,
-- packet capture and sockets, the HTTP server, vendored libraries, the parsing of a policy before its
-- load. Other threads do not change the stores while a policy loads. What an export writes is the
-- list of the buckets it was given, with their time stamps and labels.
mod Prelude
pub mod Metrics
pub mod Serializer
pub mod Window
pub mod Handler
pub mod Frames
pub mod Transactions
pub mod Ports
pub mod Modules
pub mod Domains
pub mod Subnets
pub mod Lru
pub mod Config
pub mod Taps
pub mod Policies
mod Tests
