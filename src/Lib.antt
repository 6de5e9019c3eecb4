-- ===== src/Lib.antt =====
-- A model of dave-go: the DAVE media frame format, its codec handling, its media keys and nonces,
-- and the session, which takes the gateway's opcodes and the frames of a voice connection.
--
-- The program seals a media frame with AES-GCM under a key of the sender's ratchet, leaves the
-- bytes that packetizers read in clear, and appends the tag, the truncated nonce and the clear ranges.
-- A receiver parses the frame, expands the nonce, asks the ratchet for the key of its generation,
-- opens the frame, checks the nonce against the window, and commits what it authenticated. The
-- session keeps an active epoch, a pending one and those it retains for a while, rebuilds the senders
-- of an epoch from the MLS group, and moves from one epoch or version to the next by transitions.
--
-- Files, with the paths of the repository:
--   Base        shared names, Boolean tests, lists, results, bytes (slices, copy, fixed-width
--               integers), and the bit operations by binary digits.
--   Frame       the package frame. Types: frame/frame.go and frame/errors.go. Uleb128:
--               frame/uleb128.go. Ranges: frame/ranges.go, with the loops of frame/encrypt.go over
--               ranges. Gcm8: frame/gcm8.go. Encrypt: frame/encrypt.go, `encrypt` for Encrypt,
--               `parse` for Parse, `decrypt` for Decrypt, and so on.
--   Codecs      the package codecs. Types: errors and kinds. Vp8, H26x and Av1: vp8.go, h26x.go and
--               av1.go. Dispatch: the entry points of codecs.go, which call Frame.Encrypt.
--   Mediakeys   the package mediakeys. Nonce: nonce.go. Ratchet: ratchet.go. Displayable:
--               displayable_code.go. Export: export.go and exporter_secret.go.
--   Session     the package session. Replay: session/replay.go, `check_and_mark` for checkAndMark,
--               `advance`, `mark`, `marked`. Types: the structs of session/session.go and
--               session/state.go, and session/errors.go. World: what the session is given. Options:
--               New and its options. Exec and Ops: actions, by which every method is written. Status:
--               State, Stats, Ready and ShouldHoldFrames. Media: Encrypt (Send), Decrypt (Receive),
--               users and SSRCs, and the calls of other goroutines (Concurrent). Wire: the identities
--               and the TLS vectors of session/mls.go. Gateway: key packages, sends, and the start of
--               the recovery. Epochs: senders and groups. Proposals, Commits, Welcomes: the messages of
--               the MLS group. Activation: activatePendingEpochLocked and the queue of proposals.
--               Handlers: OnSelectProtocolAck and the handlers OnDave... (Protocol and Groups).
--               Recovery: retrySend, Close and the watchdog. Run: sequences of events. Nonces: what
--               keeps nonces apart. Checks: the other proofs, by what they are about.
--   Examples    concrete inputs for the theorems with hypotheses.
--
-- State is passed explicitly: a method with a pointer receiver takes the record and returns the new
-- one. Bytes are numbers, and fixed-width arithmetic that may wrap is written with `% 2 ^ w`; an int
-- of a caller's range is a 64-bit number, negative from 2^63 on. A Go
-- call comes to `ok`, `err` or `panic`; a slice or an index out of bounds is a panic. Buffers are
-- values: aliasing between a buffer and its slices is not modelled.
--
-- Parameters: crypto/aes and crypto/cipher are the record `Gcm`, of which `IsGcm` states what counter
-- mode with a 16-byte tag does for a nonce of 12 bytes (they panic on any other); KdfExpandLabel of mls-go is `Kdf`, and `Succeeds` states that it
-- fails on no input with an output of up to 32 bytes; the exporter and the clock are functions. For a
-- session they are fields of `World`, with the client and the messages of mls-go (`Mls`, the client
-- with its store an opaque number), the answers of the gateway's callbacks, and the calls that other
-- goroutines make while a callback runs, when the lock is released.
--
-- A method of a session is an action: a function from the session to the session after it and a
-- result. What an action wrote before an error stays written. Ratchets are shared by pointers, so they
-- stand in a list, `ratchets`, and a pointer is a place in it. The field `drawn` is not of the program:
-- it records each nonce drawn for each ratchet. A handler runs at one go but for the calls of `during`
-- and the waits of a retry, which are other goroutines' turns. Each ratchet reads a clock of its own.
--
-- Loops are recursions on a list or on the number of rounds. Five loops run on fuel: the ranges of
-- `parse` and the OBUs of `prepare_av1_frame` read a byte at least in each round, so the number of
-- bytes is enough; the NAL units of `h26x_ranges` move the offset forward, so the length of the
-- frame and one is enough; `append_uleb128` shifts by 7 bits, so four rounds are enough for 32; a
-- message of a batch takes a byte at least, so the number of bytes is enough for `proposal_loop` (a
-- message that mls-go marshals to more bytes than were left panics there before its inspection, in
-- the program after it). The queue of proposals is drained by its length, and
-- `retry_loop` by the number of attempts that its configuration allows.
--
-- Not modelled: WaitReady and WaitShutdown, which wait on channels; timers and goroutines but for the
-- events they lead to; the identifier of a session, CreateFunc and the three size limits
-- of session/session.go; logging and String methods; the erasure of secrets; the example programs,
-- which are network input and output.
pub mod Base
pub mod Codecs
pub mod Examples
pub mod Frame
pub mod Mediakeys
pub mod Session
