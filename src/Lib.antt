-- ===== src/Lib.antt =====
-- A model of mikrotik-exporter, the Prometheus exporter for MikroTik devices: it logs in to each
-- configured router over the RouterOS API, runs the collectors that the configuration enables, and
-- sends what they read as metrics.
--
-- The parts, from the wire up, each a directory of modules under a file of its name:
--
-- Prelude: byte strings, maps as association lists, integers, 64-bit patterns, list lemmas.
-- Proto: routeros/proto. Length is the length prefix of a word (`readLength`, `encodeLength`,
-- `readBytes`), Sentence and Reader are `ReadSentence` and `readWord`, Writer is the writer with its
-- sticky error and its lock. A stream is the list of the bytes that are left of it, and its end is
-- the end of the list. Reader.Total and RoundTrip hold the theorems on both together.
-- Client: routeros. Reply is `readReply` and `processSentence`, Session is `Run`, `Login`, `Close`
-- and `newClientAndLogin`.
-- Convert: internal/convert/converters.go. Numbers is `Atoi`, Duration is `MetricFromDuration` and
-- its helpers, Times `ParseTS` and `ParseTSInLocation`,
-- Values the other converters.
-- Metrics: internal/metrics. Context has labels and descriptions, Property what `Describe` and
-- `Collect` of the property metrics send, Builder and Ret are the two metric builders, Counter is
-- `CountByProperty`.
-- Config: internal/config/config.go. Features, Device, Version and Load are the features, the
-- devices, the firmware version and `Load` with its validation; Load.Enabled is about
-- `AllEnabledFeatures`.
-- Collector: internal/collector. Version is `parseFirmwareVersion`, Gather is `gatherMetrics`,
-- Device the state of a device collector, Connect is `connect` with the requests for identity and
-- version, Collect is `collect` and `disconnect`, Exporter is `NewCollector` with the instances of the
-- collectors and the devices of a scrape, Scrape the metrics about the scrape itself.
-- Feature: internal/collectors, one collector for each feature of RouterOS. Base is the monad that
-- they are written in, which threads the client, keeps the metrics in the order in which they are
-- sent and has a panic; Chain the calls that make a metric; Common the steps that collectors share.
-- System, Tools, Addressing, Leases, Network, Routing, Security, Tunnels, Ethernet, Wireless, Radio,
-- Services and Queues hold the collectors: `new_..._collector` is the constructor with `Describe`,
-- `collect_...` is `Collect` with its helpers.
-- Registry is collectors/mod.go with the `init` functions, Remote the client of a session as the
-- collectors use it. The Sound modules follow each `Collect` with a rule for each construct.
-- Tests: the theorems on concrete inputs.
--
-- What is not code of the repository is a parameter: the decoder of Windows-1250 (`decode`, with the
-- hypothesis that ASCII is kept where a theorem needs it), the buffered sink of the writer (`Sink`),
-- what a device answers (`respond`), MD5, the dial, floating-point numbers (`Floats`), and of the
-- time and strconv packages `Parse`, `LoadLocation`, the clock and `QuoteToASCII` (`Library`). A panic is
-- a value of the result. Maps are walked in the order of their association list.
--
-- Fuel: `read_words` has one step for each byte of the stream and one more, since a word takes a
-- byte; `read_sentences` as well, since a sentence takes one; `total_duration` has one step for each
-- byte of the text, each part taking one at least; `itoa` has one step more than its number, which
-- each division by ten makes smaller (Feature/Common/Digits).
--
-- Not modelled: the command line and the HTTP server (cli), logging and the printers of values, the
-- texts of wrapped errors, YAML decoding, and the DNS lookup. White space is that of ASCII.
pub mod Prelude
pub mod Proto
pub mod Client
pub mod Convert
pub mod Metrics
pub mod Config
pub mod Collector
pub mod Feature
pub mod Tests
