-- ===== src/Lib.antt =====
-- iec104-python: the protocol logic of the c104 module, an IEC 60870-5-104 client and server.
--
-- The program wraps lib60870-C for Python. A `Server` (src/Server.cpp) has stations
-- (src/object/Station.cpp) with points (src/object/DataPoint.cpp) and answers the messages of its
-- peers. A `Client` (src/Client.cpp) has connections (src/remote/Connection.cpp), each a state machine
-- driven by the events that the library reports, with commands that may wait for an answer. Received
-- packets are read by src/remote/message/IncomingMessage.cpp, points are sent through
-- src/remote/message/PointMessage.cpp and PointCommand.cpp.
--
-- Base: the names of the library, tests, lists, integers and results that the modules share.
-- Protocol: the numbers of the standard for types, causes, qualifiers and quality bits. The headers of
--   lib60870-C that declare them are a submodule, so the numbers are those of IEC 60870-5-101.
-- Text: texts as lists of codes, the decimal form of numbers, `connectionStringFormatter` and
--   `Assert_Port`.
-- Address: `Assert_IPv4` of src/types.cpp. Pattern has regular expressions, Ip that of the source; Dotted
--   and Colons are about it.
-- Flags: the sets of flags of src/enums.h with their texts, and the debug mode of src/types.cpp; Reading
--   and Switches are about them.
-- Security: `TransportSecurity`, by the calls that it makes of the TLS library; Soundness and Outcome are
--   about it.
-- Value: C++ `double` as exact signed values with NaN and the infinities, as far as points compare it.
-- Callback: `reset`, `call` and `getResult` of src/module/Callback.h, with what else is registered between
--   their locks. Soundness is about them; Answers has how the handlers take an answer, Raw the callbacks
--   without a result and those for raw octets, Before those of a point before a read or a report.
-- Lock: `GilAwareMutex` with the lock of the Python interpreter, as steps of threads; Safety and Progress
--   are about it.
-- Point: `DataPoint`. Data has the constructor and the setters, Update has `setValueEx` and
--   `onReceive`; Valid and Domain are about them.
-- Station: Points has `getPoint` and `addPoint`, Stations the lists of stations of a server and of a
--   connection; Lookup is about both.
-- Message: Incoming has `extractMetaData`, Cursor `first` and `next`, Causes
--   `isValidCauseOfTransmission`, Outgoing the constructors of `PointMessage` and `PointCommand`;
--   Acceptance and Objects are about the last two. Elements has `extractInformationObject`, on what the
--   getters of the library give; Decoded is about the points that receive what it reads. Conversions
--   has the casts of values, Structures what is created and destroyed; Values and Lifetime are about them.
-- Frame: Encode has `getRawBytes`, Decode `rawMessageDictionaryFormatter` of src/remote/Helper.cpp;
--   RoundTrip is about both. Format has `rawMessageFormatter`, Explain the octets that Python gets and
--   the text that it gets of octets.
-- Connection: State has the fields, Pending `expectedResponseMap`, Link the state machine, Command the
--   commands and `awaitCommandSuccess`, Names the texts of states; Safety, Handshake, Answers, Sending and
--   Staying are about them.
--   The calls into the library and the callback are recorded in a log.
-- Server: Registry has `connectionMap` with its counter, Report and Packing `sendInterrogationResponse`,
--   Replies the confirmations and errors, Handlers and Commands the handlers, LifeCycle `start`, `stop`
--   and a round of `thread_run`, Sending `transmitEx` and `send`, Setup the constructor, Clock the
--   date for `on_clock_sync`. Peers, Groups, Interrogation, Answers, Execution, Collected, Running and
--   Transmission are about them.
-- Client: Remotes has the connections of a client, Loop a round of `thread_run`, Reports `asduHandler` of
--   src/remote/Connection.cpp, Transmit `read` and `transmit` of a client's point; Addresses, Recovery,
--   Stopping, Delivery and Messages are about them. Hooks has `asduHandler` with callbacks, which
--   Interrupted and Known are about, and Setup the constructor of a connection, which Timeouts is about.
-- System: Link passes the answers of a server on to a client's connection, in order and without loss;
--   how the library packs objects and reads them again is an argument. Replies and Commands are about a
--   command from the client's call to its result; Packets, Reports, Groups and Interrogation are about an
--   interrogation from the server's answer to the client's points.
-- Scenarios: tests, and the theorems applied to concrete inputs.
--
-- A method that changes its object returns the new object, beside its result and what it sends; an
-- exception is an error value. A lock held throughout a method makes it one step; where threads meet,
-- in `awaitCommandSuccess`, between `disconnect` and the library's report, and between the locks of a
-- callback, the moves of the other threads are arguments. What lib60870-C, the clock and Python
-- callbacks give is an argument or a field of `Environment`: a callback before a read or a report is a
-- function on the point, and whether an object still fits into an ASDU is a test on the objects before it.
--
-- Loops over lists are structural. The loop `while (message->next())` runs on fuel, for which more
-- than the number of objects is enough; the decimal form of a number has fuel for 20 digits, which the
-- numbers of 64 bits do not exceed. The wait in `awaitCommandSuccess` follows a list of wake-ups.
-- Conversions that C++ leaves undefined, and the copy of a payload past the end of its array, are `none`.
-- 8-bit counters wrap at 2 ^ 8, and `uint_fast16_t` to `uint_fast64_t` have 64 bits, as on x86-64.
--
-- Not modelled: the Python bindings (src/main.cpp), but for the two functions of Explain, the sleeps and
-- the measurement of time in the loops, the clock, and the text output but for that of Flags, Format and
-- Names. The mutex is by itself: that a class locks it is not.
pub mod Address
pub mod Base
pub mod Protocol
pub mod Text
pub mod Value
pub mod Callback
pub mod Point
pub mod Station
pub mod Lock
pub mod Message
pub mod Flags
pub mod Frame
pub mod Connection
pub mod Security
pub mod Server
pub mod Client
pub mod System
pub mod Scenarios
