-- ===== src/Lib.antt =====
-- togewire streams what a Spotify account is playing to listeners over HTTP, as Ogg/Opus pages, from a
-- cache of tracks or from a live sender (togedemon).
--
-- The parts and the files that model them, with paths from the repository's root:
--   Cache       src/cache.rs. Cache/Disk.antt is the part of the file system that it uses, Store.antt the
--               state `Inner` with eviction and `touch`, Manager.antt the methods of `Manager` and the work
--               at startup, Naming.antt the names of files. Invariant, Steps, Eviction, Methods, Loading,
--               NamingLaws and FreeNames prove what holds of them.
--   Stream      src/server/stream.rs. Pipe.antt is one generation of the stream (`Pipe`, `Prefix`),
--               Manager.antt `StreamManager`, Ogg.antt pages and their checksum, Pump.antt `pump_ogg`.
--               Listener.antt is the body of a stream's response (src/server/mod.rs), which reads off the
--               broadcast. Backlog, Burst, Heard, Pages, Tags, Total and Playback prove what holds of them.
--   Types       src/types.rs: tracks and the playback state.
--   Config      src/config.rs: the configuration and the flags of the process; its laws in ConfigLaws.antt.
--   Audio       src/audio/prepare.rs. Prepare.antt is `TrackPreparer` between its awaits, Tasks.antt the
--               calls that run at once. Cooldown and Leaders prove what holds of them. Librespot.antt and
--               Container.antt are src/audio/librespot_src.rs, with its sessions proved in Sessions.antt. Covers.antt is
--               the covers of src/audio/mod.rs, Releases.antt the checked downloads of src/audio/ytdlp.rs,
--               with CoverLaws and ReleaseLaws.
--   Spotify     src/spotify.rs and src/spotify/parsing.rs. Json.antt has JSON values and their readers,
--               Uris.antt the spellings of a track's address, Extract.antt, Metadata.antt and Snapshot.antt
--               what is read from a node, a metadata record and the connect state; Client.antt is the state
--               `Inner` with the access token, Requests.antt `send_authed_json`, Account.antt pairing and
--               the plan, Playback.antt `get_current_track`. Search, SnapshotLaws, Trim and UriLaws prove
--               what holds of the readers, Costs, TokenLaws, Renewal, RequestLaws, Errors, AccountLaws,
--               MetadataLaws and ProgressLaws what holds of the client.
--   Server      src/server. Auth.antt is auth.rs, Login.antt the login handler of mod.rs, App.antt the
--               shared `AppState` with what is sent to listeners, Monitor.antt one poll of the worker in
--               workers.rs, Addresses.antt whose request it is (mod.rs), Peers.antt and Connections.antt how
--               streams and sockets come and go (mod.rs and websocket.rs), Switches.antt the admin settings
--               and the connection of togedemon, Pairing.antt the pairing handlers, Gate.antt the router and
--               what it takes to reach a handler (mod.rs). RateLimit, LoginLaws, Forwarded, Polling, Playing,
--               Tally, Opened, Counts, Live and GateLaws prove what holds of them.
--   Togedemon   src/bin/togedemon.rs. Sender.antt has the silence cutoff of the upload, how a run ends and the
--               server's feed, PipeWire.antt the search for Spotify's node; Silence proves when an upload ends.
--   Prelude     what the parts share: list and map lemmas, Boolean tests, integers and machine words.
--   Tests       each theorem at a concrete input.
--
-- How they interact: the monitor's poll sets the current track in `AppState`, asks the preparer and the cache
-- for its file, and tells the stream manager to play it; the handlers count listeners in `AppState`, and each
-- change is broadcast to the sockets. Preparer, cache and stream manager in `AppState` are the states of their
-- own modules, so a handler's model calls theirs.
--
-- State is passed explicitly: an operation takes the state and gives the new one with its result. A lock
-- that the source holds for a whole operation makes that operation one step. Where the source awaits in
-- between, the preparer and the connections are split there, and Tasks.antt and Counts.antt have the
-- steps of the calls and connections that run at once; the other handlers, the monitor's poll and an
-- operation of the Spotify client or of librespot are one step each, awaits included. Clocks are
-- arguments: instants in milliseconds, and seconds since 1970 for the cache. Texts are lists of code
-- points, bytes are numbers. 64-bit arithmetic wraps (Prelude/Words.antt), except that saturating
-- operations saturate, and that the monitor's count of errors and an address's counts do not wrap.
--
-- Fuel: the loops of `pump_ogg` run on the length of the input, since each page takes at least 27 bytes
-- of it, the walk over a JPEG image on its length, since each segment takes at least four, and the loop
-- of `make_room` on the length of the table, since each round removes an entry. The other loops are
-- structural. The two attempts of a request are counted down as in the source, a number is printed with
-- 20 digits at most, which a 64-bit one never exceeds, and the artists of a node are read at most once
-- per field. A new file's name is tried once more than there are files on the disk, which is enough
-- since the names differ; the source counts the tries in 32 bits.
--
-- What is outside is an argument: how much of the broadcast its channel still holds, the JSON library
-- and what a file's parser gives, SHA-256 and bcrypt, what the two fetchers of audio give, whether a
-- write to disk works, random tokens, how the standard library reads and prints an address, librespot
-- itself, and for the login whether the post is of the same origin and its address.
--
-- The client of Spotify keeps the answers it will get as a list in its state, each with the time it takes and
-- the wall-clock time by then, so that a theorem about every list holds whatever the services answer. The
-- monitor takes what Spotify answers as an argument.
--
-- Not modelled: the search and the runs of yt-dlp in src/audio/ytdlp.rs, the work on a file in
-- src/audio/librespot_src.rs, the subprocesses of src/audio/mod.rs and what they are fed, of
-- src/bin/togedemon.rs the subprocesses and what pactl prints, src/main.rs, the temporary copies in
-- /dev/shm of src/server/stream.rs, and of src/server/mod.rs the pages: mostly input and output around
-- tools and services. The text of log lines is not modelled.
pub mod Prelude
pub mod Types
pub mod Config
pub mod ConfigLaws
pub mod TextLaws
pub mod Cache
pub mod Stream
pub mod Audio
pub mod Spotify
pub mod Server
pub mod Togedemon
pub mod Tests
