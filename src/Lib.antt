-- ===== src/Lib.antt =====
-- A model of baker, a record pipeline in Go: an input hands chunks of text to the filter chains,
-- which parse each line into a record, pass it through the filters and send its fields to the outputs.
--
-- The record (logline.go, record.go, api.go)
--   Record      the types FieldIndex, []byte (nil or not) and Metadata
--   Cache       the per-record cache: Get, Set, Del, Clear
--   LogLine     the type LogLine and its methods. Its children hold the proofs: Invariant and Fields
--               for Get and Set, Split, Separators, Accepts and Parsed for Parse, Text and RoundTrip for
--               ToText, Copy and Clean for Copy
--   RecordType  the interface Record, with the laws its clients rely on; LogLines fills it
--
-- The filters (filter/)
--   Filter.Interface  the interface Filter and the law of its statistics; Kinds fills it with all that are
--                     modelled
--   Filter.External   what the filters call of other packages, as a record of functions: regexp, url, json,
--                     jmespath, sexp, md5 and sha256, strings.ToLower, the clock, and the URLs and times
--                     in metadata
--   Filter.X          X is NotNull, StringMatch, ClearFields, Dedup, Slice, ExpandList, Concatenate,
--                     ReplaceFields, PartialClone, TimestampRange, RegexMatch, UrlEscape, UrlParam, Hash,
--                     SetStringFromUrl, Timestamp, CountAndTag, MetadataLastModified, MetadataUrl,
--                     ExpandJson or ClauseFilter: its configuration, NewX as `new` and Process as
--                     `process`. What they do with a record is proved in their children.
--   Filter.MetadataCache  the cache of filter/metadata/cache.go
--
-- The filter process (topology.go)
--   Topology    runFilterChain, filterChainEnd and the chain of filters, over any implementation of the
--               two interfaces; its state is the filters, the counters and what was sent. Its children:
--               Lines for the loop over a chunk, Accounting for the counters (those of stats.go),
--               Sharding for the records sent, Univocal for makeUnivocal.
--   Topology.Lifecycle  the goroutines of Start, with Wait, as the steps of a system: how many records are
--               in a channel and who still sends is its state. Its children: Parts for one goroutine among
--               others, Sound and Steps for what holds between steps, Ends for the length of runs, Live
--               and Waited for their end.
--   Topology.Build  NewTopologyFromConfig, with the channels that it makes; its child Ready connects it with
--               Topology.Lifecycle and the defaults of Config.
--
-- The output of files (output/filewriter.go)
--   FileWriter  fillDefaults, NewFileWriter and Run, on the sequence of what arrives: records, and the
--               ticks of the workers. Its children: Text for paths and their placeholders, Worker for
--               fileWorker, whose goroutine is run on the sequence of what it receives, Files for what
--               files are to hold, Running, Rotated and Kept for a worker, Records, Dispatch and Run for those of a
--               FileWriter. os.Create of a path that a file has truncates that file, which is all
--               that a path that is used twice does here: a file that is open twice is not followed.
--
-- The output of statistics (output/stats.go)
--   StatsOutput  NewStats and the loop of Run, up to the writing of the CSV; what is inserted into an estimate
--                of quantiles is kept as a list. Its children: Samples for what the samples are, Counted for the
--                counts.
--
-- The splitting of files (pkg/splitwriter/split_writer.go)
--   SplitWriter  Close and findSplitPoint on the bytes of the files. Its children: LineEnd for the split
--                point, Parts for the parts that Close leaves.
--
-- The cache of buffers (pkg/buffercache/)
--   BufferCache  New, Put and Flush of cache.go, with the calls of onFlush as a list and the compressor as
--                a parameter. Its children: Bitmap (bitmap.go), Location (location.go) and Cold (cold.go,
--                with Cells and RoundTrip for what cells hold), Count for how often a byte is held or
--                flushed, Flush for Flush, with Held for what buffers are to hold, Readable for the calls
--               and Total for all of it, Rounds and Rounds.Calls for the calls between
--                putInHot and putInCold.
--
-- The input of compressed files (input/inpututils/compressedstream.go)
--   CompressedInput  the loop of parseFileTyped over the text of a file; the reader, which may fail and
--                    chooses how much a read takes, is a parameter. Its children: Lines for texts that
--                    end with a newline, Whole for what is sent.
--
-- The configuration (config.go)
--   Config      the defaults, the separator, assignFieldMapping and assignValidationMapping, on what the
--               TOML was decoded to. Its children: Mapping for the names of fields, Select for the look-up of
--               the components in NewConfigFromToml, with Known for what it finds.
--
-- Shared: Common (tests, lists, integers, dictionaries over byte strings, the parts of strconv and sort
-- that are used, and the outcomes of a call).
--
-- Bytes and other Go integers are natural numbers; where the code converts to int32 or counts in a
-- uint8 the wrap is written out. Counters of 64 bits are taken not to wrap. A slice is its bytes, and is
-- nil or not; sharing of its memory and its spare capacity are not modelled. A filter's Process calls
-- next at most once and last, so it returns the record handed on. The chain of filters is run in one
-- filter process, where the channels to the outputs are the list of what was sent on them; several are run
-- in Topology.Lifecycle, where what they send is any list of records for channels that exist.
--
-- Fuel: the loop in ToText takes fuel, of which 256 rounds are enough when it ends; the loop over a chunk
-- takes one round more than the chunk has bytes, which always suffices; so do, in SplitWriter, one round
-- more than the bytes of the buffer, of maxsize and of the file, and in CompressedInput one round more
-- than the bytes of the file. The loop over the blocks of a hot buffer
-- takes one round more than the buffer has bytes; a Put calls putInHot at most twice for one buffer (the
-- second time with an empty hot cache, or without the key).
--
-- Not modelled: the decoding of a configuration, the other inputs and outputs, uploads, metrics and
-- help, the other three filters, the CSV of the statistics, the queue of files of a compressed input,
-- the names of the parts of a split file, the working memory of the compressor.
pub mod Common
pub mod Record
pub mod Cache
pub mod LogLine
pub mod RecordType
pub mod Filter
pub mod FileWriter
pub mod Topology
pub mod SplitWriter
pub mod BufferCache
pub mod Config
pub mod CompressedInput
pub mod StatsOutput
