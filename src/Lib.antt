-- ===== src/Lib.antt =====
-- Verification library of ax25-ts, an AX.25 and NET/ROM stack.
--
-- A frame (src/frame.ts) is a chain of address slots (src/address.ts, src/callsign.ts), one or two
-- control octets, a PID and an information field. It crosses a serial line in KISS framing
-- (src/kiss.ts) or a datagram with a check sequence (src/fcs.ts). Data that is longer than a frame
-- is cut and put together by src/sdl/segmenter.ts, which src/sdl/segmentation-layer.ts puts between
-- the user and the session. NET/ROM circuits (src/netrom/circuit.ts) run over such links: they
-- exchange packets with a transport header (src/netrom/transport-header.ts) and, on connecting, the
-- fields of src/netrom/connect-request-info.ts and src/netrom/connect-ack-info.ts.
--
-- Files:
-- Base (Tests, Lists, Bytes, Xor, Maps): Boolean tests, lists by native numbers, masks and shifts
-- on octets, and maps from texts that keep the order of their keys.
-- Kiss: encodeKiss and KissDecoder. `push` is KissDecoder.push, one `push_byte` for each octet.
-- Fcs: computeFcs, appendFcs and stripFcs.
-- Callsign, Address: the constructor of Callsign, readAddress and writeAddress. Callsign/Text:
-- toString and equals.
-- Frame: encodeFrame, classify, getNs, getNr, pollFinal. Frame/Decode: decodeFrame. Frame/Factory:
-- the functions that build frames. A frame is a record of the fields of Ax25Frame.
-- Segmenter: segment and its two formats, and Reassembler. SegmentationLayer: buildSendRequests and
-- onDataIndication.
-- Session: the variables of src/sdl/session-context.ts and their arithmetic, and advanceVa of
-- src/sdl/action-dispatcher.ts. Session/Bindings: the guards of src/sdl/session-bindings.ts.
-- Session/Actions: src/sdl/action-dispatcher.ts, the frames that an action builds and what it keeps;
-- Session/Actions/Verbs, Effects and Execute: executeVerb and execute. The subroutines of the state
-- tables and the hooks of the management machine are fields of the dispatcher.
-- Session/Events: classifyFrame of src/sdl/frame-classifier.ts. Session/Window: the window of
-- outstanding frames.
-- NetRom/Transport, NetRom/ConnectInfo: the transport header, and the fields of the handshake as
-- they are written. NetRom/Packet: the shifted callsign (src/netrom/callsign.ts), the network
-- header (src/netrom/network-header.ts) and the packet (src/netrom/packet.ts) both ways, and the
-- reading of the connect request.
-- NetRom/Quality: combineQuality of src/netrom/quality.ts. NetRom/Alias: readAlias and writeAlias.
-- NetRom/Inp3: src/netrom/inp3-rif.ts. NetRom/Sntt: src/netrom/inp3-sntt.ts. NetRom/Nodes: src/netrom/nodes-broadcast.ts and
-- src/netrom/nodes-broadcast-builder.ts.
-- NetRom/Routing: the table of src/netrom/routing-table.ts, its keys and its orders.
-- NetRom/Routing/Routes: upsertRoute, upsertInp3Route, withdrawInp3. NetRom/Routing/Learning: ingest
-- and ingestRif. NetRom/Routing/Ageing: sweep, markNeighbourDown and markPortDown.
-- NetRom/Routing/Adverts: buildAdvertisement, buildRif, snapshot. NetRom/Routing/Steps: runs of the
-- table. The maps of the table are association lists; a walk that changes each destination in place
-- is one function on them, `change_table`, and the callsign that a key names is looked up.
-- NetRom/Forwarding: decideForward of src/netrom/forwarding.ts, on the snapshot of the table.
-- NetRom/Circuit: the state of NetRomCircuit, and what it sends. NetRom/Circuit/Sending and
-- NetRom/Circuit/Methods: each method as a function from state to state, and `step` for a call of a
-- public method. NetRom/Circuit/InFlight, Window, Sequence and Closing are about the sending side
-- and the timer, Fragments, Receive and Delivery about the receiving side. The other modules below
-- these hold proofs, and the modules Runs hold runs at concrete inputs.
--
-- Octets are numbers, a Uint8Array is a list of them, and arithmetic keeps the cuts that the source
-- writes (`% 256` for `& 0xff`). A thrown error is an `err` of a type that has one constructor for
-- each throw. An object that methods change is a record that they take and give. The packets and
-- events of a circuit are a list in the state, oldest first, and the clock is an argument.
-- The timer values of a session, which the source keeps as doubles, are exact binary fractions.
-- Listeners run after the method that fires them.
--
-- Bounds: `read_chain` counts down the digipeaters that are left of eight. `fragments` and the
-- loops of the segmenter run on fuel: the length of the data, and the number of segments. A round
-- uses one and takes an octet or a segment at least, so it is enough. The loops over the options and the records of a routing information frame have
-- the length of what is left as fuel, of which each option takes two octets and each record ten.
--
-- Not modelled: sockets and serial ports, the session driver and its state tables (which a package
-- outside the repository generates), XID, the listener, the
-- circuit manager, the timers of INP3, and the reading of callsigns from texts.
pub mod Base
pub mod Kiss
pub mod Callsign
pub mod Address
pub mod NetRom
pub mod Fcs
pub mod Frame
pub mod Segmenter
pub mod SegmentationLayer
pub mod Session
