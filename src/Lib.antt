-- ===== src/Lib.antt =====
-- GigaAM v3 Runtime: a speech-recognition runtime in Rust. Audio is decoded and resampled, a
-- neural network turns windows of features into matrices of scores, the recognition crate decodes
-- tokens from them, the transcription crate builds segments, words and dialog turns, and the
-- service crate admits requests, runs them and drains on shutdown. This library models the parts
-- that decide, and leaves the networks, the signal processing and the servers outside.
--
-- The parts, each a module of the same name with its proofs and tests below it:
--
-- Base: shared types, lists and results. Base.Words has the checked arithmetic of `usize`, taken
-- as 64 bits wide; Base.Int the integers; Base.Floats the comparisons of `f32` and `f64` as an
-- interface with the order laws of finite values, and Base.Arithmetic the operations on them, of
-- which only `x - x` on a finite value, the absolute value of zero and the sign of literals are
-- known.
--
-- Execution: crates/recognition/src/execution.rs, the lifecycle cell that a request, its worker
-- and its canceller share. `decide` holds the `match` of each method; `advance` is one atomic
-- load or compare-exchange of a thread, and `Threads.run` runs a schedule of them. A schedule is
-- a list of thread numbers, so it is as long as one likes; eleven accesses are the most that a
-- call can need, as each failed exchange means that another thread has moved the cell on.
-- `Calls` describes what each method does as a whole, apart from its loop.
--
-- Scheduler: crates/recognition/src/scheduler.rs, the queue of jobs and the thread that owns the
-- decoder. `work_at` is the next step of that thread, `enqueue_job` the critical section of a
-- caller; controls change by `apply` of Execution, which is what a call does at the access at
-- which it takes effect. The answer of the decoder, or its panic, comes with the step. The wait of
-- the caller for the answer is not modelled.
--
-- Admission: crates/service/src/admission.rs, the capacities of HTTP work, uploads and WebSocket
-- channels. The semaphore is tokio's and enters as `SemaphoreApi`, with its documented laws.
-- `admit` and `begin_draining` are the methods run alone; in `Clients` each read of the phase,
-- each acquisition or release and each `close` is a step of its own. `Owner` is
-- the owner of request work, which holds an HTTP admission and ends the execution cell.
--
-- Ctc and Rnnt: crates/recognition/src/ctc.rs and rnnt.rs, the two greedy decoders. The rows are
-- `f32` and the scores of tokens `f64`, each with an order of its own. The scorer
-- of a label and the transducer's networks are arguments. Loops over frames and symbols are
-- recursion on the number left. A piece of the vocabulary is a list of code points, and whitespace
-- is an argument.
--
-- Vad: crates/transcription/src/vad_policy.rs, speech segments from probabilities and their
-- padding, after the detector, whose answer is an argument. Every checked subtraction and
-- multiplication of the source is a failure of the model. Sample counts are given as numbers;
-- their derivation from milliseconds in `f32` is not modelled.
--
-- Endpoint: crates/transcription/src/endpoint.rs, endpoints and speech ranges of the silence mask
-- that a decoder returns. The time that a number of frames takes is an argument.
--
-- Transcript: crates/transcription/src/contracts.rs and text.rs, words, the events of a stream and
-- the normalization of a word. Text is a list of code points; `char` is the interface `Unicode`.
--
-- Stitch: crates/transcription/src/stitch.rs, the seam between two windows of words and the line
-- that the windows make.
--
-- Stream: crates/transcription/src/stream.rs, the incremental transcription of one channel. Config
-- has the ports (control, frontend, decoder, detector), whose n-th use may answer anything; Line is
-- `emit` and the line of the client; Features is `decode` with the mel columns that it keeps;
-- Session is `tick` and `push`, Opening the construction of a session, Snapshot what the dialogue
-- reads of it. A method that fails gives its error alone: the session that it leaves then is not
-- modelled. The loop of `push` has fuel for two turns a sample: a turn takes a sample, or it runs
-- a tick that makes room for one.
--
-- Dialog: crates/transcription/src/dialog.rs, the dialogue line of several channels: `update_with`
-- with the turns of each channel, their order, the marks and the patch; a failed update leaves the
-- merger with the frontiers that it has advanced. The sort is a stable
-- insertion sort, and the comparison by `total_cmp` an argument.
--
-- Channels: crates/transcription/src/channel_selection.rs, which channels are transcribed. The
-- correlation of two channels, which may fail, is an argument.
--
-- G711: crates/audio/src/g711.rs, A-law and mu-law bytes to samples, bit by bit.
--
-- Not modelled: batch windows and turns, the channel workflows, audio containers and resampling,
-- ONNX Runtime sessions, the HTTP and WebSocket handlers, telemetry, configuration and the command
-- line. Messages of errors are constructors without their text.
pub mod Base
pub mod Admission
pub mod Channels
pub mod Ctc
pub mod Dialog
pub mod Endpoint
pub mod Execution
pub mod G711
pub mod Rnnt
pub mod Scheduler
pub mod Stitch
pub mod Stream
pub mod Transcript
pub mod Vad
