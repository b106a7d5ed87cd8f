-- ===== src/Lib.antt =====
-- Mahiron: a television server for ARIB broadcasts. Tuners deliver MPEG-2 transport streams; the
-- library under ts/ takes packets, sections, tables and DSM-CC carousels out of them, and the
-- packages under internal/ manage tuners, streams, jobs, programs and services.
--
-- The model is a translation of the Go code, function by function.
--
-- Base holds what the parts share: Boolean tests and lists over native numbers (Base.Tests,
-- Base.Lists), the outcomes of Go code (Base.Result: a value, an error value, a panic, or a loop of
-- the model that ran out of fuel), the bit operations (Base.Bits) and Go maps with integer keys
-- (Base.Assoc), lists of numbers as sets (Base.Members) and Go's int (Base.Int).
--
-- Ts is ts/: Ts.Words the big-endian reads, Ts.Packet ts/packet.go (Packet's accessors), Ts.Crc and
-- Ts.Section and Ts.Assembler ts/section.go (crc32MPEG2, Section, SectionAssembler), Ts.Descriptors
-- the loops ParseDescriptors of ts/descriptors.go and parseDescriptorsStrict of ts/nit.go, Ts.TableId
-- and Ts.Psi ts/psi.go, and Ts.Pat, Ts.Pmt, Ts.Sdt, Ts.Nit, Ts.DsmccStream the parsers of the files
-- of these names. The assembler is fed by packets and hands sections to the parsers; every parser
-- tests the length, the table id and the checksum and then reads its loops with the descriptor loops.
-- A byte is a number below 256, a shift or a mask keeps the width of its Go type, and an index or a
-- slice out of range is a panic.
--
-- Ts.SectionSet is tableSectionSet of ts/scanner.go and Ts.Demux is ts/demux.go: Ts.Demux the state
-- and the PAT of a service, Ts.Demux.Observe what the tables teach it, Ts.Demux.Outputs the packets
-- of a service. It feeds the assemblers, parses PATs and PMTs and packs the sections that Ts.Pat builds.
--
-- Carousel is ts/dsmcc_carousel.go: Carousel the state, ObserveDII and the evictions, Carousel.Blocks
-- the rest of the operations. A change of a module's state through its pointer is a write back under
-- its key. uint64 counters wrap at 2 ^ 64. Where Go ranges over a map, in an order that the runtime
-- chooses, the model takes the order of the association list. Carousel.Weight, Budget, Eviction,
-- Room, Announce, Observe, Complete, Release and Steps are about its byte budgets, Carousel.Splice
-- and Carousel.Reassembly about the payload that blocks make up: a source is a module as it is
-- broadcast, and a receiver collects the modules that a list of DDBs finishes.
--
-- Carousel.Messages is the parsers of the two messages that feed the carousel, ts/logo_common.go,
-- and Carousel.Metadata is ts/dsmcc_module_info.go. Ts.Descriptors.Bodies is the parsers of single
-- descriptors of ts/descriptors.go.
--
-- Event is internal/event/hub.go: a channel is the list of the events that wait in it. Session is
-- internal/stream/session_registry.go: pointers are numbers into a store of objects, and the calls
-- under the registry's mutex are the steps.
--
-- Tuner is the state of one tuner in internal/tuner/manager.go, status.go and tuner.go, and
-- Tuner.Manager the search over all tuners: a tuner is its index, a device a number of its own, and a
-- priority an integer of any size, since it is only compared and may be -1.
--
-- Job is internal/job/manager.go and job.go: Job the state, the history, the start of jobs and the
-- dispatcher, Job.Pending the end of a run, retries and the shutdown, Job.Calls the methods. What one
-- holder of the manager's mutex does is one step of Job.Steps; a handler, the clock, new IDs and the
-- context of a run are arguments. Job.Sound, Locked, Starts and Abort carry the invariant.
--
-- Fuel: a loop over bytes has one more round than there are bytes, and each round takes at least
-- one; an eviction loop has a round for each module, and each round takes one away; so have the
-- loops of the dispatcher over the queue and of trimHistory over the history.
--
-- Not modelled: goroutines, I/O, SQL, HTTP and generated code, the ARIB string decoder, and the
-- other packages under internal/.
pub mod Base
pub mod Ts
pub mod Carousel
pub mod Event
pub mod Job
pub mod Session
pub mod Tuner
