-- ===== src/Lib.antt =====
-- A verification library for the OTel Arrow adapter: OTLP telemetry is turned into Arrow records by
-- a producer, sent in batches over streams, and turned back by a consumer.
--
-- The parts and how they interact. Entities (spans, links, events) accumulate their attributes;
-- attributes, links and events become records of their own, whose rows are sorted and whose ids are
-- written as differences. The producer writes each record to the IPC stream of its schema, and the
-- consumer reads it there. The exporter sends the batches and hands the server's answers to the
-- senders that wait. The columns adapt their schema to the data, and a record that finds its schema
-- out of date is built again.
--
-- - Base: booleans, lists, machine words with Go's wrap-around, strings as lists of bytes, 64-bit
--   integers and doubles with their orders, and calls that may return an error or panic.
-- - Schema/Dictionary: pkg/otel/common/schema/transform/dictionary.go and config/dictionary.go. A
--   DictionaryField is a record; set_cardinality is SetCardinality, update_index_type is
--   updateIndexType, whose loop is `advance` over the cardinalities that are left. Search and Updates
--   hold the proofs.
-- - Schema/Types, Tree, NewSchema and Record: pkg/otel/common/schema/schema.go, transform_node.go,
--   transform/*.go and builder/record.go. Types has the part of Arrow's schemas that the code reads,
--   Tree is NewTransformTreeFrom and RemoveOptional, NewSchema is NewFieldFrom with the Transform
--   methods, Record is RecordBuilderExt. The dictionary fields stand in a table, to which the nodes
--   of the tree refer by position, as the source does by pointer. Adapted, Transforms, Adapts and
--   Trees hold the proofs about schemas; Tables, Passes, Returns, Keeping, Current, Steps, Attempts
--   and Life those about the record builder.
-- - Attrs: pkg/otel/common/arrow/attributes*.go and pkg/otel/common/otlp/attributes_new.go. Value has
--   Equal, IsLess and Compare; Sorter the sorters, with the modulus of the parent id as a parameter
--   for the two widths; Accumulator the accumulators; Columns the rows that TryBuild appends; Decoder
--   and Store the reader. ParentIds, Rows, Grouping, RoundTrip and Mismatch hold the proofs.
-- - Traces: pkg/otel/traces/arrow and pkg/otel/traces/otlp. Groups has the parent ids of links and
--   events; DeltaIds the delta builders of pkg/otel/common/schema/builder/uint.go and their reader;
--   Related what links and events share, a Kind listing their fields; Links and Events the two kinds;
--   RelatedData has RelatedDataFrom, over an interface of the single readers, and TracesFrom, Scan
--   and EventScan the proofs about them. Spans is the main record: the id columns that Append
--   writes, and the loop of TracesFrom that groups the rows; what else a row holds is of any type. Kept, OneScope and Misplaced hold its proofs.
--   Optimizer flattens and sorts the spans before they are written; Orders and SpanOrder hold the
--   proofs about its comparisons.
-- - Transport: pkg/otel/arrow_record. Ipc is the Arrow IPC library as a parameter with its laws;
--   Producer has Produce, Consumer has Consume, Build the loops that build a record again. Mirror,
--   Delivery, Messages, RoundTrip, Batches and Faults hold the proofs.
-- - Export: collector/gen/exporter/otlpexporter/internal/arrow. Waiters has the map of waiting
--   senders, Stream the goroutines of a stream as a step relation, Answers the proofs about both;
--   Controller is the stream controller of exporter.go.
-- - Receive: collector/gen/receiver/otlpreceiver/internal/arrow. Headers has combineHeaders, Merge
--   its proofs; Statuses has anyStream and processRecords over the services that they call, Answered
--   the proofs about the statuses and what the exporter makes of them.
-- - Routing: collector/processor/experimentprocessor. Router has Validate of config.go, the router of
--   router.go and ConsumeTraces of traces.go, to which metrics.go and logs.go are equal; Shares the
--   proofs about the choice of exporters. An int is its 64-bit word.
-- - Memory: pkg/otel/common/arrow/allocator.go, the allocator with a limit.
-- - Examples: the theorems at concrete inputs, and runs of the definitions.
--
-- State is passed explicitly. Go maps are association lists, whose first entry of a key counts; where
-- Go ranges over a map in any order, the list's order stands for it. Slices of bytes and strings are
-- lists of numbers. sort.Slice, the CBOR coding, pcommon.Map, the IPC library and the hpack decoder
-- are parameters. Loops over slices are recursions on lists. The build loop runs on the fuel 6,
-- as many attempts as the code makes before it panics; the end of the fuel is an outcome apart.
--
-- Not modelled: the typed column builders of the schema package, what metrics and logs have of
-- their own, their optimizers included; Arrow's own arrays, gRPC, and the generated protocol messages;
-- memory (Release, Retain), statistics and logging.
mod Base
pub mod Schema
pub mod Attrs
pub mod Traces
pub mod Transport
pub mod Memory
pub mod Export
pub mod Receive
pub mod Routing
mod Examples
