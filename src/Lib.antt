-- ===== src/Lib.antt =====
-- NanoASR is an offline speech recognition server. This library models the parts of its core that
-- decide what work is taken on, kept and given back, and those that turn uploads into samples and
-- recognised words into a transcript.
--
-- Governor.antt is internal/pool/governor.go, the weighted semaphore over inference threads: one
-- test of the loop in Acquire and one Release are the steps, and Governor/Bounds.antt interleaves
-- them in any order.
--
-- Pool.antt is internal/pool/pool.go, the models in memory: each critical section under the lock
-- of the pool is a function (the state and eviction in Pool/State.antt, acquisition and release in
-- Pool/Acquire.antt, the rest in Pool/Manage.antt), and loading a model happens between two of
-- them. Pool/Serving.antt interleaves the acquisitions, the ends of loads, releases, hot swaps,
-- sweeps and shutdown in any order, with the leases that are out and the loads in flight as state;
-- Pool/Invariant.antt is what holds between two steps, and the files beside it are one for each
-- group of operations. evict runs on fuel: each round takes an entry out of the map, so one more
-- than its size is enough, which Pool/Limits.antt is about.
--
-- Vad.antt is internal/vad/spans.go, and Silences of vad.go: what several channels of a call have
-- of speech and silence. A time in seconds is what a quotient gives, an argument, since it is a
-- float64.
--
-- Postproc.antt is internal/postproc/postproc.go, the chain of text stages, and
-- Postproc/Segments.antt is segments.go, which takes the words out of their segments and puts the
-- rewritten ones back; an index out of range there is a panic and a value of the model, and
-- Postproc/Filling.antt is about the loop that could run into one. A stage is an argument.
-- Itn.antt is internal/postproc/itn: Itn/Numbers.antt is ru_numbers.go, Itn/Russian.antt ru.go
-- (its tables and its rules) and Itn/Engine.antt engine.go, whose Rewrite is such a stage. The
-- comparison of a pause with the limit and strings.ToLower are arguments. Itn/Spelling.antt is how
-- a number is said in the nominative, with its genders and plural forms, independent of the
-- parser.
--
-- Diarize.antt is internal/diarize/split.go: attributions onto words, and segments cut where the
-- speaker changes. The order of two texts is an argument.
--
-- Pipeline.antt is the part of internal/pipeline that puts the channels together (channels.go) and
-- runs the speaker pass over the transcript (diarize.go), which calls Diarize.antt. The diarizer
-- and the attribution of words to its turns are arguments.
--
-- Registry.antt is internal/registry/unpack.go: an archive into a directory, entry by entry, and
-- the paths that its names may lead to. Registry/Inside.antt is about the paths and
-- Registry/Extracting.antt about what lands on disk.
--
-- Audio.antt is what internal/audio does with WAV files: Audio/Header.antt is the reader of
-- headers in wav.go and WAVHeader of wavenc.go, Audio/Samples.antt the rest of wav.go,
-- Audio/Companding.antt g711.go; audio.go gives the options. The walk over the chunks and the loop
-- over blocks run on the bytes that are left and one more as fuel: a chunk takes at least eight of
-- them, and a round of the other loop at least one block.
--
-- Core/Float.antt is the arithmetic of float64 on bit patterns, a parameter of what computes with
-- it.
--
-- Spool.antt is internal/spool/spool.go, the disk budget for queued audio: the reservations, the
-- directory, the names of its files and the sweep at startup. What the operating system answers is
-- an argument.
--
-- Jobs.antt is internal/job. Jobs/Record.antt is record.go. Jobs/Queue.antt is each critical
-- section of queue.go, interleaved in Jobs/Queue/Capacity.antt. Jobs/Hub.antt is hub.go, with
-- channels as bounded buffers. Jobs/Store.antt is the part of internal/store/sqlite/store.go that
-- the queue calls, and Jobs/Store/Resuming.antt follows a request through it. Jobs/Work.antt
-- composes these into the handlers of queue.go (Submit, run, finish, Cancel, Recover): a job is
-- reserved in the queue, its audio in the spool, its row in the table, and each transition is
-- written to the table and published by the hub; Jobs/Work/Recovery.antt and
-- Jobs/Work/Restart.antt follow a restart through all of these.
--
-- Core.antt is the data of internal/core that the parts exchange. Prelude.antt passes library
-- names on and adds Boolean tests, lists and maps over the native numbers.
--
-- Numbers are natural numbers: the `int` and `int64` counters concerned never fall below 0, and
-- their sums stay below 2 ^ 63; samples of a WAV file are signed and wrap as the source has it,
-- and a number below 2 ^ 63 is written with 19 digits at most. Every other recursion is
-- structural, on a list of entries, items, events or operations.
--
-- Not modelled: the encoding of columns in the table of jobs, the network, the HTTP dialects, the
-- recognisers, resampling and other numerical audio code, voice isolation, realtime sessions, and
-- the wiring of the process. The handlers in Jobs/Work.antt run to their end one at a time.
pub mod Prelude
pub mod Governor
pub mod Core
pub mod Jobs
pub mod Spool
pub mod Pool
pub mod Vad
pub mod Postproc
pub mod Itn
pub mod Audio
pub mod Diarize
pub mod Registry
pub mod Pipeline
