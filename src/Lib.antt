-- ===== src/Lib.antt =====
-- realtimeDataCenter: a data centre that keeps one JSON tree in memory, which visitors read and write
-- by paths, with listeners that are told of the writes that affect them. Clients reach it over a socket
-- protocol of its own and over a REST interface.
--
-- - Base: the shared names; Base.Int is Go's int64 with its wrap-around, Base.Words has words as
--   little-endian bytes, Base.Strings has texts as byte lists, Base.Dicts has Go maps and sync.Map as
--   association lists.
-- - Golib: what the program uses of the standard library: strings.Split (Golib.Strings), strconv.Atoi
--   (Golib.Strconv), and json.Unmarshal: the scanner, which takes a text byte by byte (Golib.Scan), the
--   escapes (Golib.Unquote) and what is stored in variables and structs (Golib.Unmarshal).
-- - Path (component/path.go): `PathNode`, `Path` as `NodePath`, `Input`, `Iter`, `InputFromString`, `Output2String`,
--   `Father` and `Last`, the functions under their names in snake case.
-- - Value: what json.Unmarshal puts into an interface{}, and json.Marshal of it (Value.Marshal). How
--   strconv writes and reads a float64 are parameters, `float_text` and `parse_float`.
-- - Visitor (component/visitor.go): the requests of visitors, the results, and the buffer of a listener
--   with `insertUpdate` and `readOne`.
-- - Json (component/component.go): `Find`, `Write` and `Read` of `JsonObject`; Json.Nodes has `Map` and
--   `IterAllPath`. `Write` assigns in place through the map or slice that `Find` returned; `write` gives
--   the tree with the changed map or slice put back at its place. A written value is taken to share no map
--   or slice with the tree, as one that was just decoded does.
-- - Affect (component/affectboundary.go): `WhetherContain` and the table of listeners.
-- - Performance (component/preformance.go): the statistics of the kernel.
-- - Control (component/visitorsControl.go): the kernel. Control.Serve has the cases of the select of
--   `Control`, each a function from the state to the state and the answer; Control.Notify has
--   `affectedReadReturn`; Control.Calls has `WriteQuickly`, `ReadQuickly`, `ReadBuffer`, `ReadWithTime`
--   and `RegisterNotify`, by which clients reach the kernel; Control.Errors has the texts of errors.
-- - Socket (socketApi/socket.go): the frames, as the writer's goroutine of `SocketPoll` puts them into
--   packets and the reader's goroutine takes them apart, and the reader's loop.
-- - Link (socketApi/socket.go): what `Request` and the two goroutines do with frames: the numbering of
--   requests, `ret_queue`, the answers. Link.Session is a connection over a list of events, with any number
--   of goroutines in `Request`; Link.Call follows one request there and back. Link.Duplex has both ends of a
--   connection, whose goroutines take turns in any order, with what is sent and not yet read between them,
--   until reading or writing fails; a connection that is over for one end is over.
-- - Messages (socketApi/baseType.go): the message types, their methods `String`, and how json.Unmarshal
--   stores the members of an object in them.
-- - Api (component/visitorsControl.go): the interfaces `ControlRead` and `ControlWrite` as a record of
--   operations on a state, with the law that reads after a write; Api.Kernel is the kernel as such a record.
-- - Server (socketApi/serverHandle.go): `socketOutputHandle`, `readPoll` and `closeNotify` over that record.
--   Server.Notification follows a write to the poll that waits for it.
-- - Client (socketApi/clientHandle.go): the calls of a client over a function that stands for its socket,
--   its heart beats, and how it connects again. Client.Calls puts the server's handler there.
-- - Rest (restfulApi/restfulApi.go): the handlers of the REST interface over the same record, and their
--   answers. RestClient (resetfulClient/client.go): the REST client over a function that stands for net/http.
-- - Simulation (clientSimulation/main.go): the program that reads all data, listens at every path and writes
--   back what it read, over a function that stands for its two sockets, and its callback; which notifications
--   come to it, and in which order the ranges over maps list the paths, are arguments.
-- - Examples: the theorems at concrete inputs.
--
-- How the parts interact: a client's call is printed as a message, sent in a frame under a fresh order,
-- and read by the server's end, which hands it to `socketOutputHandle`. That decodes it and calls the kernel.
-- A call sends a request to the kernel, which parses its path, finds or writes in the tree, and answers. A
-- write then goes to the listeners that `Affect` returns: the tree is read once for each path among them,
-- and the result goes into the buffer of each, from which `ReadBuffer` takes it; a poll of the server sends
-- it on. The answer goes back in a frame with the order of the request.
--
-- What time and other goroutines decide is an argument: the clock, the hour, whether a timer is chosen in a
-- select, how many results a reader takes while an update waits, whether a client is there to take an
-- answer, what the kernel does while a reader waits, and whether the listener that the reader holds a pointer
-- to is then still the one in the table. The kernel's endless loop is the run over a list of
-- steps (Control.Steps), among which are those of the readers that wait on their buffers in goroutines of
-- their own; a poll is the run over a list of its rounds. The reader's loop of a connection has fuel, for
-- which the number of bytes that arrive and one more is enough, as a frame has bytes; resolving the
-- escapes of a string has its length as fuel, as each rune has a byte. The other loops run over lists.
--
-- Bounds: a listener's buffer holds 500 results, a ring of reasons 100, and the hours are 24, as in the
-- code. Counts and times are int64 and wrap around; the length in a frame is a uint16 and an order a
-- uint64, and both wrap around.
--
-- A text is called plain if it is UTF-8 and has no quote, backslash or control character, and a value is in
-- canonical form if the keys of its maps are in order, its strings and keys are UTF-8 and its numbers are
-- read back as they are written.
--
-- Not modelled: the log lines; the printing of the statistics, which is a parameter of Api.Kernel; the
-- texts of the errors of json.Unmarshal and strconv.Atoi, which are parameters; the limit on the depth of a JSON
-- text in newer versions of Go; the start of listening and connections, with the wait groups, and
-- the loop that accepts connections; the routes that restfulApi registers with go-restful and swagger, which
-- are third-party, and the answer of `visitorWrite` as JSON, which go-restful writes; main.go, which reads a
-- file and starts the servers; what the simulation measures and logs; the reply channels inside requests;
-- errors of json.Marshal, which these values do not cause except for a float64 that is no number.
pub mod Base
pub mod Golib
pub mod Path
pub mod Value
pub mod Visitor
pub mod Json
pub mod Affect
pub mod Performance
pub mod Control
pub mod Socket
pub mod Link
pub mod Messages
pub mod Api
pub mod Server
pub mod Client
pub mod Rest
pub mod RestClient
pub mod Simulation
pub mod Examples
