-- ===== src/Lib.antt =====
-- Noderati, a Node-shaped host for the Paserati language runtime: models of parts of its Go code in
-- internal/host, and theorems about them.
--
-- The host gives a JavaScript runtime the modules of Node. A script's `import` goes through the
-- resolvers of nodemodules.go and packageimports.go, which find a package's directory and choose a
-- file by its package.json; the module `path` is what scripts themselves compute paths with. A worker
-- thread and its parent send each other mail through mailboxes (worker_runtime.go), a forked child
-- and its parent send messages through a channel (child_process_ipc.go). Both hold the event loop of
-- the runtime open by external operations, and both leave work to it as ticks.
--
-- * Path is internal/host/path.go. Path/GoPath is Go's package path, on which that file stands, and
--   Path/Segments the walk over segments which it is shown to be. Path/Posix is posixNormalize,
--   posixResolve, posixRelative and path.resolve, Path/Win32 the functions whose names begin with
--   win32, and Path/Parse posixParse, win32Parse and formatPath. A slice expression that may be out
--   of range is an Option, whose `none` is Go's panic. os.Getwd is an argument.
-- * Mailbox is the type mailbox of internal/host/worker_runtime.go. A method runs under the mailbox's
--   lock and is one step; drain gives the lock back between two deliveries and is several.
-- * Packages is internal/host/nodemodules.go and packageimports.go, from a specifier to a file.
--   Packages/Json is what encoding/json makes of a package.json, Packages/Exports and
--   Packages/Imports choose a target, Packages/Entry turns it into a file, Packages/Specifier splits
--   a specifier, Packages/Stripping is the scan that takes comments and literals out of a source
--   before its kind is told. The file system is an argument: which paths are files, and what is read
--   from a package's directory.
-- * Ipc is ipcChannel of internal/host/child_process_ipc.go, with keepAlive of
--   internal/host/fs_watch.go in Ipc/KeepAlive. Ipc/Frames is the format on the wire and the loop of
--   onData, Ipc/Channel the channel's state and what each event does to it. The serializer and the
--   parser are arguments. Listeners that run while a chunk is handled are not modelled: what they
--   call happens behind the chunk.
-- * Glob is internal/host/fs_glob.go without the walk through directories. Glob/Braces is
--   globExpandBraces, Glob/Segment globSegmentRegexp by the text of the regular expression,
--   Glob/Compile globCompile, Glob/Match and Glob/Exclude globMatchParts and globExcludeMatcher,
--   Glob/Emit what the walker does with a path. Which texts regexp.Compile accepts and what the
--   expression with a text matches are arguments.
-- * Cipher is internal/host/crypto_cipher.go, of which Cipher/Wrap is aesWrap and aesUnwrap with
--   their cores, Cipher/WrapPad aesWrapPad and aesUnwrapPad, and Cipher/Modes update, blocks and
--   final of a cipherCtx in CBC or ECB; what never changes of it is an argument. So is the block
--   cipher, Cipher/Blocks: on blocks, Encrypt and Decrypt are inverse.
-- * Buffers is the text and the integers of a buffer. Buffers/Decoder is internal/host/stringdecoder.go,
--   Buffers/Encoding encodeBufferBytes and normalizeBufferEncoding of internal/host/buffer.go on
--   ASCII names, with the encoders of Go's library in Buffers/Base64. Buffers/Integers is the
--   integers of one to six bytes of internal/host/buffer_methods.go; a number is its sign, the
--   whole part of its absolute value, and whether there is a fraction.
-- * Events is the listeners of internal/host/emitter.go in Events/Emitter, and the bridge of
--   internal/host/signals.go in Events/Signals: the overridden methods of `process`, the signals
--   that are passed on, and the macrotask of a signal. A function is its identity, and what a
--   listener does is a list of calls of these methods. `_events` is taken to be untouched by
--   scripts, and what is given to `on` is a function, not a wrapper got from `listeners`.
--   Events/Stream is the data that a readable stream of emitter.go keeps until there is a consumer,
--   with the decoder of Buffers; the events are written down, and listeners run behind a flush.
--
-- Bounds and fuel: lengths and indexes are natural numbers without a bound; only the four bytes of a
-- frame's length wrap around, as in the source. The loop of onData has as fuel one more than there
-- are bytes, which is enough since each frame takes at least one; globExpandBraces has one more than
-- the pattern has bytes, since each expansion is shorter. The walks of Path/Parse and the loops over
-- targets are structural. The buffer of writes has no bound here, where the source lets `send` wait
-- at 1024.
--
-- Not modelled: hosts other than Unix; the search for a package's directory and the wrapping of
-- CommonJS sources; the walk of a glob through directories; the start and stop of workers and of
-- child processes; the parts of the host that convert values round calls of the operating system, of
-- Go's standard library or of the runtime; and the parts that are JavaScript text. Texts of errors
-- are left out.
mod Prelude
pub mod Path
pub mod Mailbox
pub mod Packages
pub mod Ipc
pub mod Glob
pub mod Cipher
pub mod Buffers
pub mod Events
