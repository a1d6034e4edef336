-- ===== src/Lib.antt =====
-- oa-gateway: an engine that routes messages between adapters, and the adapters' protocols.
--
-- The engine (crates/oa-gateway-core) holds subscriptions keyed by adapter and subscription id and
-- carries an envelope to every subscription whose route matches. An adapter speaks one protocol and
-- calls the engine: OWP over WebSocket (crates/oa-gateway-owp), STOMP (crates/oa-gateway-stomp), or
-- none (crates/oa-gateway-loopback). A UCI schema (crates/oa-gateway-uci) says which messages are valid.
--
-- Files:
-- * Prelude, Text, Map: shared names; a String as its bytes, `usize` in decimal, UTF-8; HashSet,
--   HashMap and BTreeMap as lists of distinct members and of distinct keys.
-- * Engine (crates/oa-gateway-core/src/engine.rs): subscribe, unsubscribe, drop_adapter, publish and
--   the counters. Engine.Index: State and the private functions insert_index, remove_subscription,
--   collect_targets. Engine.Types: route.rs, envelope.rs, headers.rs. Engine.Buckets,
--   Engine.Consistent and Engine.Operations: the indexes against the table of subscriptions.
--   Engine.History: sequences of calls. Engine.Matching, Engine.Fanout: publish.
-- * Stomp.Frame, Stomp.Decode (crates/oa-gateway-stomp/src/codec.rs): Frame and encode;
--   decode_one_with_limit, a call of which returns what it leaves in the buffer. Stomp.Escape,
--   Stomp.Lines, Stomp.Headers, Stomp.RoundTrip, Stomp.Limits: their laws. Stomp.Dest (dest.rs):
--   DestinationMap. Stomp.Sniff: the sniffers. Stomp.Client (client.rs): the client's frames and
--   FrameReader; Stomp.Reading: how it reads frames. Stomp.Adapter (adapter.rs): what a session makes
--   of frames and envelopes; Stomp.Echo: its laws. Stomp.Session: a session over the engine, by its
--   events; Stomp.Confined, Stomp.Cleared: what it leaves in the engine.
-- * Loopback (crates/oa-gateway-loopback/src/lib.rs): the handle; Loopback.Names: its ids.
-- * Owp.Errors, Owp.Codec (crates/oa-gateway-owp/src/codec.rs): error names, parse_client,
--   parse_server, the printed ServerOp. Owp.Tokens, Owp.Wire, Owp.Grammar, Owp.Printer: their laws.
-- * Owp.Session (session.rs): handle_text and the handlers under it, over the engine. Owp.Session.Seen,
--   Publish, CleanUp, Keeps, Start, Queued: what they keep and do. Owp.Session.Run: the loop of run, as
--   a sequence of the events of its select, with the frames written to the socket; Owp.Session.Fifo:
--   its queue of frames. Owp.Hex
--   (convert.rs): hex payloads; Owp.Convert (convert.rs): the conversion of envelopes.
-- * Uci.Schema, Uci.Pattern, Uci.Extension, Uci.Facets (crates/oa-gateway-uci/src/schema.rs): the
--   schema, pattern translation, extension and restriction chains; Uci.Acyclic, Uci.Made,
--   Uci.Narrowing: their laws. Uci.Primitive, Uci.Lexical (primitive.rs). Uci.Instance, Uci.Errors.
--   Uci.Violation, Uci.Rules, Uci.Values, Uci.Check (validate): the check of a message. Uci.Valid: what
--   it asks for, without a report; Uci.Reports, Uci.Sound, Uci.Leaves, Uci.Follows: that it does.
--   Uci.Json, Uci.Json.Write (json.rs): messages from and to JSON; Uci.Json.Writable,
--   Uci.Json.Readable: what is read can be written. Uci.Plain: an instance of Calls for tests.
-- * Agra (crates/oa-gateway-agra/src/lib.rs): wrappers in JSON, and the envelopes of an unwrapped one.
--   Agra.Hex: decode_hex; Agra.RoundTrip: a wrapper made from parts is read back.
-- * Supervise (crates/oa-gateway-adapter/src/supervise.rs): OnPanic and after_join.
--
-- State is passed explicitly: an operation takes the state and returns the new one beside its result.
-- Errors are values. The counters wrap at 2 ^ 64 and lengths are checked against usize as in the code.
-- Fuel: the decimal printer has the number plus one, proved enough by its round trip; the walk along
-- an extension chain has one more than the complex types, proved enough (Uci.Acyclic); a restriction
-- chain is read for MAX_SIMPLE_DEPTH links, as in the code.
--
-- Parameters: the mpsc channels (Engine.Channels), serde_json (Owp.Codec.SerdeJson), and what the
-- session calls in uuid and the crates oa-gateway-agra and oa-gateway-uci (Owp.Session.Payloads); what
-- the STOMP adapter calls in serde_json and oa-gateway-agra (Stomp.Sniff.Bodies); f64, the regex crate
-- and the numbers of serde_json (Uci.Schema.Calls); the parser and the printer of serde_json
-- (Uci.Json.Serde); xml.rs (Owp.Convert.Xml); the root name of an XML document, the hex crate and a
-- printed character (Agra.Codecs).
--
-- Not modelled: sockets, tasks, timers and logs: whether a deadline has passed or the socket takes a
-- frame is part of an event, and a forwarder is the frames that it queues; the accept loops; the bound
-- on a session's queue of outgoing frames; TLS; most settings; the XML side and the XSD compiler of the
-- UCI crate; wrap, element_to_enum and the XML wrappers of the A-GRA crate; the DDS crate.
mod Prelude
pub mod Text
pub mod Map
pub mod Engine
pub mod Stomp
pub mod Loopback
pub mod Owp
pub mod Supervise
pub mod Uci
pub mod Agra
