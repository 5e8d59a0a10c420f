-- ===== src/Lib.antt =====
-- A client for the LysKOM Protocol A, pkg/protocol, with the strings, numbers and records of the
-- protocol, pkg/hollerith, pkg/utils and pkg/types.
--
-- A call of the client registers a callback under a fresh request number, sends a line to the server,
-- and hands its caller the channel of the callback. A read loop takes the responses: a status byte,
-- the request number, and a body that the callback reads; the callback then starts a goroutine that
-- sends a value on the channel and closes it.
--
-- - Base, Base/Tests, Base/Lists: notation, Boolean tests, lists over the native numbers.
-- - Fmt, Fmt/Decimal, Fmt/Scan: what the program uses of Go's package fmt, `Sprintf` of numbers and
--   `Fscanf`.
-- - Io: an `io.Reader` is the list of the outcomes of its reads of one byte, with a mark whether it
--   is an `io.RuneScanner` (a strings.Reader is one, a net.Conn is not). When the list has ended, it
--   is at the end of the input. An `io.Writer` is the list of the outcomes of its calls of `Write`,
--   the outcome of every call behind them, and the bytes on the wire.
-- - Utils: pkg/utils/utils.go. `ReadByte` is `read_byte`, `ReadUInt32FromString` is
--   `read_uint32_from_string`, `ReadDelimitedList` is `read_delimited_list`; `ParseConfType` is
--   `parse_conf_type` of Types/Flags.
-- - Hollerith: pkg/hollerith/hollerith.go. `Sprint`, `Fprint`, `Fprintf`, `Scan` and `FromString` are
--   `sprint`, `fprint`, `fprintf`, `scan` and `from_string`.
-- - Types/Flags, Types/Records: the structs of pkg/types/types.go, field by field; the texts of the
--   flags in pkg/types/marshal.go and their readers in pkg/types/unmarshal.go.
-- - Types/Arrays, Types/Time: the arrays of numbers, and times, which are seconds since the year 1.
-- - Protocol/Server: pkg/protocol/server.go. Protocol/Errors: pkg/protocol/errors.go.
-- - Protocol/Client, /Input, /Lists, /Response, /Handlers, /Receive, /Requests, /Connect:
--   pkg/protocol/client.go, in the order in which a request passes through it.
-- - Protocol/Channels: a channel without a buffer and the goroutines on it.
-- - Examples: the theorems at concrete inputs.
--
-- Strings are lists of bytes. A word of 32, 16 or 64 bits keeps its wrap-around as a remainder. A
-- function that can panic, at an index out of range or at a nil callback, returns an Option, where
-- `none` is the panic. Errors are values of `GoError`.
--
-- Loops over the input run on fuel, a round for each outcome that the reader has left and some more;
-- each round takes an outcome, so the fuel is enough. Those of `ReadDelimitedList`, `skipToNewline`,
-- `readUInt32` and `readUInt16` are `none` where their rounds run out (Protocol/Input/Lines,
-- Protocol/Input/Numbers). The loops over a string have a round for each byte of it and one more.
--
-- The loop of `send` need not end: a socket can take no byte for ever. `send` and all requests are
-- `none` there. The loop has a round for each listed outcome of the writer, one for each byte of the
-- line and one more; each round takes an outcome or leaves fewer bytes, or it changes nothing and no
-- number of rounds is enough (Protocol/Client/Sending/Stalls).
--
-- Locks are held over whole bodies, so each operation under one is a step. The read loop and the
-- callers meet in histories of such steps (Protocol/Client/Slots, Protocol/Receive), goroutines and a
-- caller in schedules of turns (Protocol/Channels).
--
-- Not modelled: log entries; the select on the shutdown channel, which ends a history; the size of
-- memory.
pub mod Base
pub mod Fmt
pub mod Io
pub mod Utils
pub mod Types
pub mod Hollerith
pub mod Protocol
pub mod Examples
