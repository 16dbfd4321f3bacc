-- ===== src/Stream/Manager.antt =====
-- src/server/stream.rs: `State` and the operations of `StreamManager` that change it.
use togewire.Prelude.{
  ℕ, ◌+◌, ◌-◌, ◌%◌, Bool, true, false, Option, none, some, List, if◌then◌else◌, leb, not, ◌&&◌,
}
use togewire.Prelude.Words.{u64_modulus}
use togewire.Config.{Normalization, stream}
use togewire.Stream.Pipe.{Bytes, Pipe, subscribe}
use togewire.Stream.Pipe

abbrev pub live_backlog : ℕ
live_backlog = 2048

abbrev pub file_backlog : ℕ
file_backlog = 64

pub record State : Type 0 where
  pub pipe : Pipe
  pub listeners : ℕ
  pub generation : ℕ
  pub playing_file : Bool

unfoldable pub initial : State
unfolding Pipe.new
initial = record {
  pipe = Pipe.new live_backlog;
  listeners = 0;
  generation = 0;
  playing_file = false;
}

-- `None` at the cap, and otherwise the receiver's place with the prefix.
unfoldable pub add_client : ℕ → State → State × Option (ℕ × List Bytes)
unfolding subscribe
add_client max_listeners s =
    if leb max_listeners s.listeners
    then (s, none)
    else (record s { listeners = (s.listeners + 1) % u64_modulus }, some (subscribe s.pipe))

unfoldable pub remove_client : State → State
remove_client s = record s { listeners = s.listeners - 1 }

abbrev pub retire : Pipe → Pipe
retire p = record p { shutdown = true }

-- The new state, and the pipe that was retired, which its producer and its listeners still hold.
unfoldable pub swap_pipe : Bool → State → State × Pipe
unfolding Pipe.new
swap_pipe playing_file s = (
  record s {
    generation = (s.generation + 1) % u64_modulus;
    pipe = Pipe.new (if playing_file then file_backlog else live_backlog);
    playing_file = playing_file;
  },
  retire s.pipe,
)

unfoldable pub stop : State → State
unfolding swap_pipe
stop s = (swap_pipe false s).0

unfoldable pub play_live : State → State × Pipe
unfolding swap_pipe
play_live s = let s' = (swap_pipe false s).0 in (s', s'.pipe)

-- `play_track` up to the task that it spawns.
unfoldable pub play_track : State → State × Pipe
unfolding swap_pipe
play_track s = let s' = (swap_pipe true s).0 in (s', s'.pipe)

-- `TempArtifact`
pub data TempArtifact : Type 0 where
  normalized_copy : TempArtifact
  low_data : Bool → TempArtifact

is_stream : Normalization → Bool
is_stream stream = true
is_stream _ = false

-- Which in-memory streaming copy a cached track needs, from `stream_flags` and the configuration.
unfoldable pub plan_temp_artifact : Bool × Bool → Normalization → Bool → Option TempArtifact
unfolding is_stream
plan_temp_artifact (above_144k, normalized) normalization low_data_streaming =
    let normalize = is_stream normalization && not normalized in
    if low_data_streaming && above_144k
    then some (low_data normalize)
    else if normalize
    then some normalized_copy
    else none
