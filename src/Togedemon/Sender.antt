-- ===== src/Togedemon/Sender.antt =====
-- src/bin/togedemon.rs: the silence cutoff of the upload, how a run ends, and what the server's feed says.
use togewire.Prelude.{
  ℕ, ◌+◌, ◌-◌, ◌/◌, Bool, true, false, not, ◌&&◌, Option, none, some, List, [], ◌∷◌, Text,
  if◌then◌else◌, ltb, leb, ◌==◌, codes,
}
use togewire.Config.{trim}
use togewire.Types.{is_empty}
use togewire.Server.Addresses.{strip_prefix}
use togewire.Spotify.Json.{Value, boolean, get_member}

abbrev pub silence_timeout_secs : ℕ
silence_timeout_secs = 5

abbrev pub silence_chunks_limit : ℕ
silence_chunks_limit = 128

abbrev pub silent_chunk_bytes : ℕ
silent_chunk_bytes = 100

-- Instants are in milliseconds.
pub record SilenceCutoff : Type 0 where
  pub silent_chunks : ℕ
  pub last_audio : ℕ
  pub silenced : Bool

-- `elapsed().as_secs()`
abbrev pub elapsed_secs : ℕ → ℕ → ℕ
elapsed_secs now since = (now - since) / 1000

-- A read of `n` bytes from ffmpeg at the time `now`, with the number of bytes handed on.
unfoldable pub read : ℕ → ℕ → SilenceCutoff → SilenceCutoff × ℕ
read now n s =
    if leb silent_chunk_bytes n
    then (record s { silent_chunks = 0; last_audio = now }, n)
    else if ltb 0 n
    then (let counted = record s { silent_chunks = s.silent_chunks + 1 } in
        if ltb silence_chunks_limit counted.silent_chunks
          && leb silence_timeout_secs (elapsed_secs now counted.last_audio)
        then (record counted { silenced = true }, 0)
        else (counted, n))
    else (s, n)

pub data RunResult : Type 0 where
  auth_failure silence_timeout streaming spotify_not_playing run_error : RunResult

-- What a run meets in turn: the stream of Spotify, ffmpeg with its pipes, and the reply to the upload, a
-- status or a failure.
pub record Run : Type 0 where
  pub stream_found : Bool
  pub encoder_runs : Bool
  pub silenced : Bool
  pub status : Option ℕ

unfoldable pub run_once : Run → RunResult
run_once r =
    if not r.stream_found
    then spotify_not_playing
    else if not r.encoder_runs
    then run_error
    else if r.silenced
    then silence_timeout
    else elim r.status [
      | none ↦ run_error
      | some status ↦
          if status == 401
          then auth_failure
          else if leb 200 status && ltb status 300
          then streaming
          else run_error
    ]

-- What the main loop does before the next run: nothing, a sleep, or a wait that playback ends early,
-- for so many seconds.
pub data Pause : Type 0 where
  no_pause : Pause
  sleep wait_for_playback : ℕ → Pause

abbrev pub reconnect_delay : ℕ
reconnect_delay = 2

unfoldable pub pause_after : RunResult → Pause
pause_after streaming = no_pause
pause_after auth_failure = sleep 30
pause_after silence_timeout = wait_for_playback reconnect_delay
pause_after spotify_not_playing = wait_for_playback 30
pause_after run_error = sleep reconnect_delay

-- The feed of the server: the data of the event so far, and what was playing_after last.
pub record Feed : Type 0 where
  pub data_buf : Text
  pub playing : Bool

abbrev flag_of : Option Value → Bool
flag_of (some (boolean b)) = b
flag_of v = false

abbrev playing_after : Bool → Option Value → Bool
playing_after old none = old
playing_after old (some json) = flag_of (get_member (codes "is_playing") json)

module _ (parse : Text → Option Value) where
  -- One line of the feed; an empty one ends an event.
  unfoldable pub feed_line : Text → Feed → Feed
  feed_line line f = elim (strip_prefix (codes "data:") line) [
    | some data_text ↦ record f { data_buf = trim data_text }
    | none ↦
        if is_empty line && not (is_empty f.data_buf)
        then record { data_buf = []; playing = playing_after f.playing (parse f.data_buf) }
        else f
  ]

  -- One connection; the next one starts with no data.
  unfoldable pub feed_lines : List Text → Feed → Feed
  unfolding feed_line
  feed_lines [] f = record f { data_buf = [] }
  feed_lines (line ∷ lines) f = feed_lines lines (feed_line line f)
