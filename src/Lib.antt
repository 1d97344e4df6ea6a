-- ===== src/Lib.antt =====
-- A verification library for ubgo/logger, a structured logger for Go.
--
-- The program. A call of a leveled method of a Logger (logger.go) is tested against the minimum
-- level (level.go), becomes a Record (record.go) with the logger's bound fields (field.go) and the
-- call's own, and runs through a pipeline of processors (processor.go, redact_path.go, dedup.go,
-- enrich.go), any of which may change or refuse it. A record that passes is counted (metrics.go)
-- and given to a transport (transport.go, transport_ring.go, transport_disruptor.go), which emits
-- it to a sink, at once or from a worker. A sink (sink.go, fingerscrossed.go, audit.go,
-- sink_net.go, sink_http.go, sink_file.go, sink_syslog_unix.go) holds records back, hashes them,
-- fans them out or sends them away, and writes the line that an encoder (encoder.go and the
-- encoder_*.go) makes of a record with the append operations of buffer.go. log/slog reaches the
-- same path by handler.go, message templates by template.go, the end of a span by span.go, a panic
-- by recover.go, the standard log package by shim_std.go and other logging libraries by the
-- bridges of contrib.
--
-- How it is modelled. State is passed explicitly. What processors, transports and sinks act on is
-- a type W, the world, that each theorem takes as a parameter; a sink or a transport is a record
-- of state transformers, a processor is one state transformer. An error is a value (Option), and a
-- program's panic is not among the behaviours modelled. Integers of a fixed width are natural
-- numbers modulo 2^64 where they count, and integers with their bounds as hypotheses where they
-- are stored. Texts are lists of bytes.
--
--   Base           the libraries' names, tests on numbers and texts, decimals, 64-bit words
--   Ring           the items of a circular buffer from an index on, for both rings below
--   Level          level.go, and parseLevel of admin.go: Level, LevelVar, names and numbers;
--                  Level/Control is the HTTP handler of admin.go, config_reload.go and signal.go,
--                  and its child Running their goroutines as steps that interleave
--   Buffer         buffer.go: the append operations and writeJSONString
--   Field          field.go and math.go: the constructors, Value and the accessors
--   Record         record.go, and ContextWith of enrich.go
--   Encoder        encoder.go, anyval.go, caller.go; Encoder/Json, Encoder/Logfmt and
--                  Encoder/Console are encoder_json.go, encoder_logfmt.go and encoder_console.go
--   Processor      runPipeline; Processor/Redact and Processor/Sample are the two stages of
--                  processor.go, Processor/Path is redact_path.go, Processor/Dedup dedup.go and
--                  Processor/Enrich enrich.go
--   Sink           WriterSink and Fanout; Sink/FingersCrossed is fingerscrossed.go, Sink/Net
--                  sink_net.go, Sink/RotatingFile sink_file.go and Sink/Syslog
--                  sink_syslog_unix.go; Sink/HttpBatch is sink_http.go, with Step for callers, the
--                  timer and the requests in any order, and its child Bodies the request bodies
--   Metrics        metrics.go; Metrics/Page is the text that it answers a request with
--   Transport      the interface and SyncTransport; Transport/RingTransport is transport_ring.go:
--                  what a method does under the mutex is one step, and Step relates the states
--                  between which Dispatch by any number of callers, the worker and Close can go;
--                  its child Waking adds who sleeps at the two conditions and who wakes whom;
--                  Transport/ChannelTransport is the one of transport.go, likewise with a step for
--                  each operation on the channel; Transport/Disruptor is the queue of
--                  transport_disruptor.go: each atomic load, store and compare-and-swap is a step
--                  of its thread, and Step takes the threads in any order; its child Loops is the
--                  transport around it; `pos & mask` is written as the remainder by the number of
--                  cells (Transport/Disruptor/Sizes)
--   Logger         logger.go, logAt of handler.go; Logger/Slog is the rest of handler.go,
--                  Logger/Template template.go and Logger/Span span.go, whose shared states are
--                  kept by address; Logger/Methods are the leveled methods, Logger/Recover is
--                  recover.go, Logger/StdLog shim_std.go and Logger/Presets presets.go with
--                  tty.go; Logger/Lines follows a call all the way to the line on stderr
--   Audit          audit.go: Emit and VerifyAudit
--   Logtest        logtest/logtest.go: the capture of what code under test logs, and the
--                  assertions
--   Adapters       contrib: Logr, Zap and Logrus send what these libraries are given to a logger;
--                  Zerolog, Phuslu, Sentry and Otel are sinks that hand records on
--   Tests          runs on concrete inputs
--
-- Parameters. Code of other packages is an argument: the texts of floats, durations, times,
-- json.Marshal and Sprint (Formats of Encoder), the frames of a caller, crypto/sha256, io.Writer,
-- the clock and runtime.Callers (Runtime of Logger), package net (Network of Sink/Net), files,
-- directories, gzip and the call of sort.Slice (Fs of Sink/RotatingFile), what a server answers
-- (Answer of Sink/HttpBatch), log/syslog (SyslogWriter of Sink/Syslog), runtime.Stack, and in
-- Adapters the constants and methods of the libraries. Strings.Split, TrimSpace, Atoi, ParseUint,
-- SplitN and the line scanner are written out as the source uses them.
--
-- Loops and bounds. A loop over an index is a recursion on the rest of the list or on the number
-- of rounds to go, so that no fuel is chosen, but for the loops of itoa64 and itoa over the digits
-- of an int64: they have the 20 rounds of the source's array, and 19 are enough; and for the
-- doubling in newMPMC, whose 64 rounds reach any size up to 2^62, the last before the int of the
-- source overflows. The verifier's limit of 8 MiB to a line is max_line. The waiting loops of the
-- ring transport are steps that cannot be taken yet, or in Waking a sleep from which only another
-- goroutine wakes.
--
-- Not modelled: the pools of buffers and records beyond the resetting of a record, since they only
-- reuse memory; Production of presets.go, whose channel transport is a step relation here and not
-- a function of the world; atomic.go and race_*.go, which are switches of the build; functions of
-- contrib that only wrap a bridge for its library; and example, a program that shows the use of
-- the package.
pub mod Base
pub mod Level
pub mod Buffer
pub mod Field
pub mod Record
pub mod Encoder
pub mod Processor
pub mod Sink
pub mod Metrics
pub mod Transport
pub mod Logger
pub mod Logtest
pub mod Adapters
pub mod Audit
pub mod Ring
mod Tests
