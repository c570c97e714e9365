-- ===== src/Lib.antt =====
-- legion-voice-mixer: a Janus plugin that mixes the voice of one region of a virtual world. A simulator
-- sends it, for each room, who may not hear whom; a viewer joins a room with a capability that the
-- simulator signed. The plugin is one C file, src/janus_slvoice.c, over small files of pure rules and
-- containers. Paths are from the root of the repository.
--
-- The parts, and the files here that model them:
--
-- - Hex, Authority, Knobs: src/visauth.h and src/roomsize.h, the epoch's text, the rules of staleness and
--   of rows, and the settings from the environment. Libc has what they call of strtol and strcasecmp.
-- - Columns, Deferred: src/deferred.c, the merge of a column and the store of the columns that arrive
--   before their listener joins. Swap is the way its fixed array is compacted, and the nonce store's.
-- - Base64, Joincap (Parse, Nonces, Gate): src/joincap.c, the capability from its text to its replay store,
--   and `janus_slvoice_joincap_verify`, which composes them for a join.
-- - Visibility (Channels, Batch, Authority, Join, Handle): the visibility feed in src/janus_slvoice.c. A
--   batch is checked against the room's authority (`janus_slvoice_vis_batch_authority_locked`), then its
--   two channels are merged into every session of each listener; an entry without a session goes to
--   Deferred, from which a join takes it back. src/roster.h is in Join.
-- - Visbatch (Rows): src/visbatch.c, the parser of a batch. Its result is the `VisBatch` that Visibility takes.
-- - Positions (Parse, Store, Observe, Handle): src/possync.c, the positions that the simulator reports, with
--   their open-addressing table, and `janus_slvoice_handle_peer_pos`.
-- - Sldata (Peers, Parse, Merge, Text): src/sldata.c, the viewers' messages on the data channel.
-- - Visibility.Heartbeat: a heartbeat of the authority, `janus_slvoice_vis_heartbeat_listeners_locked` and
--   an entry of `janus_slvoice_handle_heartbeat`; Visibility.Rounds: that handler; Visibility.Sender: the sender's pass,
--   `janus_slvoice_vis_transitions_locked`.
-- - Listener (Control, Cull, Dots): what a session keeps of single sources and the dots that it is sent,
--   `janus_slvoice_apply_peer_ctl_locked`, `janus_slvoice_distance_cull_locked` and
--   `janus_slvoice_dot_batch_for_listener_locked`.
-- - Rooms: leaving a room, the grace of an empty one, the sweep (`janus_slvoice_sweep_empty_rooms_locked`);
--   Rooms.Joining: the arm "join" of `janus_slvoice_handler`, its gates and the membership after them.
-- - Jitter: the jitter buffer, `janus_slvoice_jb_insert` and `janus_slvoice_jb_pull`.
-- - Tests has concrete inputs, with Tests.Tables as the tables of Glib and a toy MAC.
--
-- How the state corresponds: a C string is the list of its bytes, a fixed array with a count the list of
-- its live rows, a struct a record with the fields that the modelled functions touch. Unsigned counters
-- wrap as they are written; times and signed fields are integers that do not overflow, which the
-- monotonic clock keeps away from their limits but for a room's settings. One sum is not kept away: the
-- parser of src/joincap.c accepts an expiry up to INT64_MAX, and `exp + skew`, added exactly here, is
-- undefined in C for an expiry within 120 seconds of that limit.
-- A function under a lock is one step from a state to a state, and what it relays is a value of its result.
--
-- Parameters: Jansson (Json, documents as values of an unknown type) and the arithmetic of doubles (Doubles),
-- GLib's string tables (Glib, with their documented laws and no order of iteration) and its strtoull, HMAC-SHA256
-- and CRYPTO_memcmp (Joincap.Parse), whether malloc succeeds, and the clocks.
--
-- Fuel: the loop of the nonce sweep has one round for each entry, since a round drops an entry or passes one;
-- Joincap.Replay shows what it leaves with that much. A probe of the table of positions has one round for
-- each slot, and Positions.Invariant shows that it always stops at one. Every other loop is recursion on its list.
--
-- Not modelled: the mix and the placement (floating point), the Opus decoder and Janus itself, the JSON of
-- requests and replies, the negotiation of a join (its outcome is an argument), the
-- creation of rooms, threads and reference counts, and what is only logged.
mod Prelude
mod Libc
mod Swap
mod Glib
mod Json
mod Doubles
pub mod Hex
pub mod Authority
pub mod Knobs
pub mod Columns
pub mod Deferred
pub mod Base64
pub mod Joincap
pub mod Visibility
pub mod Visbatch
pub mod Positions
pub mod Sldata
pub mod Listener
pub mod Jitter
pub mod Rooms
mod Tests
