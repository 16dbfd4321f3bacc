-- ===== src/Audio/Librespot.antt =====
-- src/audio/librespot_src.rs: the librespot session, its cooldown and the formats it was refused.
use togewire.Prelude.{
  ℕ, ◌+◌, Bool, true, false, ◌||◌, Option, none, some, List, [], ◌∷◌, ◌++◌, Text, if◌then◌else◌,
  ltb, ◌==◌,
}
use togewire.Config.{set_premium, set_use_librespot}
use togewire.Spotify.Client.{Json, Client, Result, ok, failed, seconds, access_token}
use togewire.Spotify.Account.{account_is_premium}

-- The formats that are ranked, best first, and the others by their number.
pub data AudioFileFormat : Type 0 where
  flac_24 flac ogg_320 ogg_160 ogg_96 aac_320 mp3_320 mp3_256 mp3_160 aac_160 : AudioFileFormat
  mp4_128 mp3_96 aac_48 aac_24 : AudioFileFormat
  unranked_format : ℕ → AudioFileFormat

pub data EncodedKind : Type 0 where
  flac_kind ogg_kind other_kind : EncodedKind

-- The place of a format in the list of priorities.
unfoldable pub format_rank : AudioFileFormat → ℕ
format_rank flac_24 = 0
format_rank flac = 1
format_rank ogg_320 = 2
format_rank ogg_160 = 3
format_rank ogg_96 = 4
format_rank aac_320 = 5
format_rank mp3_320 = 6
format_rank mp3_256 = 7
format_rank mp3_160 = 8
format_rank aac_160 = 9
format_rank mp4_128 = 10
format_rank mp3_96 = 11
format_rank aac_48 = 12
format_rank aac_24 = 13
format_rank (unranked_format n) = 14 + n

abbrev pub priorities : List (AudioFileFormat × EncodedKind)
priorities =
    (flac_24, flac_kind)
    ∷ (flac, flac_kind)
    ∷ (ogg_320, ogg_kind)
    ∷ (ogg_160, ogg_kind)
    ∷ (ogg_96, ogg_kind)
    ∷ (aac_320, other_kind)
    ∷ (mp3_320, other_kind)
    ∷ (mp3_256, other_kind)
    ∷ (mp3_160, other_kind)
    ∷ (aac_160, other_kind)
    ∷ (mp4_128, other_kind)
    ∷ (mp3_96, other_kind)
    ∷ (aac_48, other_kind)
    ∷ (aac_24, other_kind)
    ∷ []

abbrev pub same_format : AudioFileFormat → AudioFileFormat → Bool
same_format a b = format_rank a == format_rank b

-- A file of a track, or of an alternative to it: its track, its file, its format.
pub record Candidate : Type 0 where
  pub spotify_id : ℕ
  pub file_id : ℕ
  pub format : AudioFileFormat
  pub kind : EncodedKind

unfoldable pub file_of : AudioFileFormat → List (AudioFileFormat × ℕ) → Option ℕ
unfolding format_rank
file_of f [] = none
file_of f ((g, id) ∷ rest) = let more = file_of f rest in if same_format g f then some id else more

unfoldable pub ranked_files :
    ℕ → List (AudioFileFormat × EncodedKind) → List (AudioFileFormat × ℕ) → List Candidate
unfolding file_of
ranked_files track [] files = []
ranked_files track ((f, kind) ∷ rest) files =
    let more = ranked_files track rest files in
    elim (file_of f files) [
      | none ↦ more
      | some id ↦ record { spotify_id = track; file_id = id; format = f; kind = kind } ∷ more
    ]

unfoldable pub unranked_files : ℕ → List (AudioFileFormat × ℕ) → List Candidate
unranked_files track [] = []
unranked_files track ((f, id) ∷ rest) =
    let more = unranked_files track rest in
    if ltb (format_rank f) 14
    then more
    else record { spotify_id = track; file_id = id; format = f; kind = other_kind } ∷ more

-- Best format first; formats without a known container parse last as `Other`.
unfoldable pub candidate_files : ℕ → List (AudioFileFormat × ℕ) → List Candidate
unfolding ranked_files unranked_files
candidate_files track files = ranked_files track priorities files ++ unranked_files track files

-- `Auth` drops the session and cools down; anything else just falls back to yt-dlp.
pub data LibrespotError : Type 0 where
  auth_error other_failure : LibrespotError

pub data Attempt {ℓ} (A : Type ℓ) : Type ℓ where
  done : A → Attempt A
  broken : LibrespotError → Attempt A

-- Whether librespot gives a key, refuses it as unavailable, or fails otherwise.
pub data KeyReply : Type 0 where
  granted unavailable key_failure : KeyReply

-- librespot itself: whether a session is invalid, a connection with a token, a track's candidates in a
-- session, keys, the opening of a file, and what is left to do with one: tags, encoding and storing.
pub record Librespot : Type 0 where
  pub is_invalid : ℕ → Bool
  pub connect : Text → Option ℕ
  pub resolve : ℕ → Text → Attempt (List Candidate)
  pub key : ℕ → Candidate → KeyReply
  pub opens : ℕ → Candidate → Bool
  pub write : Candidate → Option Text

-- The state of the fetcher beside the client, and what librespot was asked to connect with, newest
-- first: the token, and the client as it was then.
pub record Fetcher : Type 0 where
  pub client : Client
  pub session : Option ℕ
  pub cooldown_until : Option ℕ
  pub refused : List AudioFileFormat
  pub connections : List (Text × Client)

abbrev pub auth_cooldown_secs : ℕ
auth_cooldown_secs = 300

-- Forget the session, e.g. once the Spotify account is disconnected.
unfoldable pub reset : Fetcher → Fetcher
reset s = record s { session = none; cooldown_until = none }

unfoldable pub is_refused : AudioFileFormat → List AudioFileFormat → Bool
unfolding format_rank
is_refused f [] = false
is_refused f (g ∷ gs) = same_format g f || is_refused f gs

unfoldable pub add_refused : List AudioFileFormat → List AudioFileFormat → List AudioFileFormat
unfolding is_refused
add_refused [] known = known
add_refused (f ∷ fs) known = add_refused fs (if is_refused f known then known else f ∷ known)

module _ (ls : Librespot) (session : ℕ) (skipped : List AudioFileFormat) where
  -- The loop over the candidates: the one that is acquired and the formats refused before it.
  unfoldable pub acquire : List Candidate → Option Candidate × List AudioFileFormat
  unfolding is_refused
  acquire [] = (none, [])
  acquire (c ∷ cs) =
      let rest = acquire cs in
      if is_refused c.format skipped then rest else elim (ls.key session c) [
        | unavailable ↦ (rest.0, c.format ∷ rest.1)
        | key_failure ↦ rest
        | granted ↦ if ls.opens session c then (some c, []) else rest
      ]

abbrev written : Option Text → Attempt Text
written none = broken other_failure
written (some path) = done path

abbrev pub valid_session : Librespot → Option ℕ → Option ℕ
valid_session ls none = none
valid_session ls (some id) = if ls.is_invalid id then none else some id

module _ (j : Json) (ls : Librespot) where
  -- The plan is checked before librespot connects, since it exits the process without Premium.
  unfoldable pub connected : Text → Result Bool → Fetcher → Fetcher × Attempt ℕ
  connected token (failed why) s = (s, broken other_failure)
  connected token (ok false) s = (
    record s {
      client = record (s.client) {
        process = set_use_librespot false (set_premium (some false) s.client.process);
      };
    },
    broken other_failure,
  )
  connected token (ok true) s =
      let tried = record s { connections = (token, s.client) ∷ s.connections } in
      elim (ls.connect token) [
        | none ↦ (tried, broken auth_error)
        | some id ↦ (record tried { session = some id; refused = [] }, done id)
      ]

  unfoldable pub with_token : Result Text → Fetcher → Fetcher × Attempt ℕ
  unfolding connected account_is_premium
  with_token (failed why) s = (s, broken auth_error)
  with_token (ok token) s =
      let plan = account_is_premium j s.client in
      connected token plan.1 (record s { client = plan.0 })

  unfoldable pub ensure_session : Fetcher → Fetcher × Attempt ℕ
  unfolding with_token access_token
  ensure_session s = elim (valid_session ls s.session) [
    | some id ↦ (s, done id)
    | none ↦ let t = access_token j s.client in with_token t.1 (record s { client = t.0 })
  ]

  -- Only now, with another format granted, a refusal is the plan's, not the track's.
  unfoldable pub take_candidate : ℕ → Attempt (List Candidate) → Fetcher → Fetcher × Attempt Text
  unfolding acquire add_refused
  take_candidate session (broken why) s = (s, broken why)
  take_candidate session (done candidates) s =
      let got = acquire ls session s.refused candidates in
      elim got.0 [
        | none ↦ (s, broken other_failure)
        | some c ↦ (record s { refused = add_refused got.1 s.refused }, written (ls.write c))
      ]

  unfoldable pub in_session : Text → Attempt ℕ → Fetcher → Fetcher × Attempt Text
  unfolding take_candidate
  in_session id (broken why) s = (s, broken why)
  in_session id (done session) s = take_candidate session (ls.resolve session id) s

  unfoldable pub fetch_track_inner : Text → Fetcher → Fetcher × Attempt Text
  unfolding ensure_session in_session
  fetch_track_inner id s = let r = ensure_session s in in_session id r.1 r.0

  abbrev cooling_down : Fetcher → Bool
  cooling_down s = elim s.cooldown_until [ none ↦ false | some at ↦ ltb s.client.clock at ]

  unfoldable pub after_fetch : Fetcher × Attempt Text → Fetcher × Attempt Text
  after_fetch (s, done path) = (s, done path)
  after_fetch (s, broken other_failure) = (s, broken other_failure)
  after_fetch (s, broken auth_error) = (
    record s {
      cooldown_until = some (s.client.clock + seconds auth_cooldown_secs);
      session = none;
    },
    broken auth_error,
  )

  unfoldable pub fetch_track : Text → Fetcher → Fetcher × Attempt Text
  unfolding fetch_track_inner after_fetch
  fetch_track id s =
      if cooling_down s then (s, broken auth_error) else after_fetch (fetch_track_inner id s)
