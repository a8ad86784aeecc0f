-- ===== src/Lib.antt =====
-- A verification library for the Rust side of OmniBridge: the desktop that pairs with a phone,
-- keeps a session with it, shows its notifications, shares a clipboard with it and takes its
-- files.
--
-- A phone reads a QR code and proves that it did (desktop/core/src/pairing.rs); from then on the
-- two devices know each other's keys, and the store (desktop/core/src/store.rs) remembers which
-- devices are trusted and for what. Each connection opens with a handshake that asks the store, or
-- pairs, and carries envelopes in frames (desktop/core/src/framing.rs), which a guard lets through
-- once (desktop/core/src/session.rs); the session loop there answers pings, hands messages to the
-- capabilities and ends a connection whose peer has gone silent. The notification capability
-- validates each message of a peer (desktop/core/src/notifications.rs), puts the work that it asks
-- for in a bounded queue (desktop/capabilities/notifications/src/queue.rs), and a worker takes it
-- from there to the notification server, keeping a table of what it shows (mirror.rs beside it).
-- The clipboard capability puts a peer's text on the clipboard where its policy lets it, sends the
-- local one out, and keeps two caches against repeats and echoes (lib.rs and dedup.rs of
-- desktop/capabilities/clipboard/src), and the file capability names its transfers, moves them
-- from state to state, copies their bytes, and gives a received file a safe and free name (lib.rs,
-- transfer.rs, stream.rs, auth.rs, filename.rs and destination.rs of
-- desktop/capabilities/files/src). The runtime puts an offered file before a person
-- (desktop/runtime/src/approval.rs), and ends a session whose grants have changed so that it is
-- negotiated again (renegotiate.rs beside it).
--
-- The files:
--
--   Prelude         the names of the libraries, lists, tests and words over the native numbers, key
--                   orders, results
--   Collections     Rust's BTreeMap and BTreeSet as association lists in key order
--   Session         Wire has the envelope and the messages of the handshake, of protocol/proto; Framing
--                   and Capability are framing.rs and capability.rs of desktop/core/src; Replay is
--                   ReplayGuard of session.rs; Pairing is pairing.rs (Message is about the bytes under
--                   the MAC, Window about PairingSession); Handshake is accept_handshake and
--                   accept_pairing of session.rs (Outcomes has what a piece guarantees from what its
--                   parts do, Authorized who gets a session, Replies and Challenge what a peer is
--                   answered, Version the version agreed); Connect is connect_handshake
--                   (Authenticated who the initiator trusts, Mutual how the two sides agree); Loop is
--                   run_session with its writer task (Guarded and Once what the guard lets through,
--                   Delivery what reaches a capability, Liveness the end of a silent connection,
--                   Writer the numbers that the factory gives); Qr is
--                   qr.rs, with the texts of fingerprint.rs and pairing.rs (Printed what is read back)
--   Store           store.rs: the calls on the peers (Invariant, Trust, Hiding, Disk), and in Identity
--                   the opening of the store with its classification of what is there; Policy is
--                   clipboard_policy.rs and notification_policy.rs of desktop/core/src
--   Notifications   Wire has the messages of protocol/proto; Validate, Roles and Snapshot are
--                   notifications.rs, Roles/Local is roles.rs of the capability; Queue, Mirror and Text
--                   are the files of that name
--   Clipboard       Events is EventCache and Suppressions is SuppressionCache of dedup.rs; Text is
--                   text.rs; Manager is ClipboardManager of lib.rs, with Pending and Outbound for
--                   its other calls (Permitted, Repeats and Echo are about what it lets through)
--   Files           Transfer, Stream, Auth, Filename and Destination are the files of that name; Manager
--                   is TransferManager of lib.rs: Offers, Answers, Streams and Reaper have its
--                   handlers, Events everything that happens to it, Evolution how its records change,
--                   and Owned, Admitted, Verified and Kept below them what the handlers guarantee
--   Runtime         Approval and Renegotiate are the files of that name
--
-- How the code is rendered. A method on `&mut self` is a function from the state to the state and
-- the answer; the lock around the queue is held for the whole of each call, so a call is one step
-- and an interleaving is a list of calls. A BTreeMap, and a HashSet of which only membership is
-- used, is a list in strictly ascending key order. A text is its UTF-8 bytes. Counters of 32 and
-- 64 bits that the code lets saturate saturate here; the count of failed proofs never passes
-- three, and a sequence number wraps at 2^64 where it is counted up. A loop is structural recursion on a list, but for
-- three. The copy loops of stream.rs run on fuel, one more than the bytes to copy, since each
-- round takes one at least, and the theorems on their ends show it to be enough. The search for a
-- free name counts its attempts down, as the code does, from max_duplicate_suffix + 1.
--
-- The handshake is a function of everything that comes from outside, the record Answers: what the
-- peer sends, whether a write succeeds, and what the host says each time it is asked, so that
-- whatever other tasks do in between is covered. It returns what was sent, the calls of the host
-- that change or decide something, and the result. Of a reply only its body is kept. The
-- initiator's half takes the record Replies in the same way. The session loop is a step for each
-- thing that its select wakes up for, and a run is a list of those, with the time of each and
-- whether the writer still takes requests. A read or a write of a data stream is an event of a
-- list: bytes, a cancellation, an error, silence. A handler of the file manager is one step from
-- the record Env of what it hears, and ends where it waits for a person, a stream or the network;
-- what follows the wait is a step of its own. The code lets another task in at each await of a
-- lock as well, which these steps do not show.
--
-- Parameters: HMAC-SHA256 and the constant-time comparison, as the record Crypto, of which the
-- development uses that the comparison of two slices of one length is equality; the two theorems
-- about proofs made elsewhere ask that the MAC does not collide on the two messages that they
-- name. The decoding of hexadecimal by its crate, of JSON and of base64, of which nothing is used.
-- The encoding of an envelope by prost, of which the theorem about streams asks that each envelope
-- it sends is decoded again. Time is a number, given to each call. Whether a write of the state
-- document succeeds is an argument of each call on the store.
--
-- Hexadecimal and base32 by the data_encoding crate and the texts of socket addresses, as the record
-- Codec, of which the theorem about QR codes asks that the first two give bytes back and have no
-- colon, and that an address is read back, has a text and has no comma.
--
-- Further parameters: the writer, the hash and the socket of a copy, as the records Sink and Wire;
-- what the file system answers, in the record Directory; whether the queue of a provider of
-- approvals takes an offer; random message ids.
--
-- Not modelled: the handlers of the notification and battery capabilities, the watcher of the
-- local clipboard, making and loading a key, the worker behind the queue, the server and the
-- sockets of the runtime, the panel, and the Android application.
pub mod Clipboard
pub mod Collections
pub mod Files
pub mod Notifications
pub mod Prelude
pub mod Runtime
pub mod Session
pub mod Store
