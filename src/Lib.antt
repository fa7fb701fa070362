-- ===== src/Lib.antt =====
-- A model of eiows, the native WebSocket engine of a Node.js server: the wire protocol and the
-- socket-independent session of uWebSockets/src, and the transport of nodejs/src.
--
-- Parts, and how they call each other:
--   uWebSockets/src/WebSocketProtocol.h is a set of static functions over a WebSocketState. Its
--   consume takes the bytes of one read, unmasks the payloads and calls its owner through the four
--   hooks of WebSocketProtocolHooks. uWebSockets/src/StreamWebSocket.cpp is that owner: its hooks
--   gather fragments, inflate and test messages, answer Ping and Close, and push events, which
--   StreamWebSocket::consume returns to the transport. createFrame and createCloseFrame write.
--   nodejs/src/native_transport.cpp owns a session: it reads its socket, plainly or through OpenSSL,
--   hands the bytes to consume, sends the frames that come back and queues what the socket does not
--   take, and calls JavaScript, which may call it again before it returns.
--   uWebSockets/src/Extensions.cpp settles, before a session begins, the options that it is given.
--
-- Files:
--   Common: lists, bytes, Boolean tests and bit operations on the native numbers.
--   Protocol/Ascii: the scans of skipAsciiAvx2 and skipAsciiNeon. Protocol/Utf8: isValidUtf8.
--   Protocol/Utf8/Scalars: UTF-8 by RFC 3629, which isValidUtf8 is held against.
--   Protocol/Mask: unmaskImprecise, unmaskInplace, rotateMask. Protocol/Mask/Masked: masking, byte
--   by byte. Protocol/OpCode, Protocol/Frame: opcodes, header readers, formatMessage.
--   Protocol/CloseFrame: parseClosePayload, formatClosePayload.
--   Protocol/State: WebSocketState and the hooks. Protocol/Parser: consumeMessage,
--   consumeContinuation and consume. Protocol/Parser/Invariant: the valid states, and the contract
--   between the parser and its owner, which Stream/Hooks/Keep proves of the session's hooks.
--   Extensions/Offers: the parser of Extensions.cpp. Extensions/Negotiator: the offers that are
--   accepted, readOffer and generateOffer.
--   Stream/Session: events, the session's fields, fail and emit. Stream/Hooks: handleFragment and
--   the other hooks. Stream/Api: consume, createFrame, createCloseFrame.
--   Stream/Compression: CompressionContext over zlib as a parameter; its child modules Inflate and
--   Deflate are inflateMessage and deflateMessage, and Filled puts them in place of the Codec that
--   the session is modelled over.
--   Transport/FrameHeader, Transport/WriteRequest: frameHeader and WriteRequest of
--   nodejs/src/native_transport.cpp. Transport/System: the state of its NativeTransport, and what it
--   calls. Transport/Close: errors, cancelWrites and closeNow. Transport/Output: flushMemoryBIOOutput,
--   writeTCP and writeTLS. Transport/Submit: submit, flushWrites, updatePoll and the end of a
--   connection. Transport/Input: poll, processMemoryBIO and consume. Transport/Api: what JavaScript
--   and the event loop call.
--   Transport/Ordered: the bytes given to a transport without TLS, their order, and what submit
--   leaves behind. Transport/Output/Drains: the order of TLS output. Transport/Output/Plaintext: the
--   order of plaintext. Transport/TlsContexts: retainTLSContext and releaseTLSContext.
--   Stream/Valid: the session's invariant, with Stream/Farewell on its Close frames. Examples: the theorems at concrete inputs.
--
-- How the model stands to the code: bytes are numbers, a buffer with its length is a list of them,
-- and what a function writes through a pointer is its result. A parser function returns the state
-- and the owner's state; Outcome tells whether the loop goes on, and with which bytes. The signed
-- two-bit opStack is kept plus one, modulo four; controlTipLength and spillLength wrap around as
-- their widths say.
--
-- JavaScript, the socket, the event loop and OpenSSL are the record System, and a call into
-- JavaScript is a function from transports to transports. What theorems ask of it is named: a closing
-- transport stays closing with its queue (ClosingLaws), and without TLS the bytes keep their order
-- (TcpLaws), also in what JavaScript does inside a callback. In C++, submit, flushWrites and
-- processMemoryBIO call one another in a circle; here the former take the latter as `process`.
--
-- Fuel: the frame loop takes six bytes or more a round, and the UTF-8 and vector loops one or more,
-- so each has as many rounds as there are bytes; Protocol/Parser/Loop has the theorem for the first.
-- The loops over zlib have as many rounds as zlib has work for the input (InflateLaws, DeflateLaws);
-- nothing is asked of a call with an inflater that has ended, and inflateMessage leaves none.
-- In the transport, the loops over a batch, over OpenSSL's pending output and over plaintext take a
-- byte or more a round and have that many rounds. The loops of flushWrites and processMemoryBIO go on
-- for as long as callbacks queue writes and the peer sends: their `rounds` is an argument, and what
-- is shown of them holds for every number of rounds; Transport/Ordered/Rounds has the number that is
-- enough for the former.
--
-- Not modelled: the allocation and capacity of buffers, exceptions, and where in memory a borrowed
-- view points. Of nodejs/src/native_transport.cpp: what N-API refuses while it makes values, how
-- arguments are read from JavaScript, references that keep buffers alive, the callbacks that
-- are multiplexed over TLS contexts, null contexts, and the environment's list of transports. Interrupted system calls are part of
-- the calls that System answers. nodejs/src/addon.cpp passes arguments on. The uWebSockets sources
-- that the build leaves out, and the JavaScript around the engine, have no model.
pub mod Common
pub mod Protocol
pub mod Extensions
pub mod Stream
pub mod Transport
pub mod Examples
