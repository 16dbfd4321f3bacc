-- ===== src/Cache/Naming.antt =====
-- src/cache.rs: the names of cached files, and what is known of a file that is streamed.
use togewire.Prelude.{
  ℕ, zero, suc, ◌+◌, ◌^◌, ◌-◌, Bool, true, false, ◌&&◌, ◌||◌, Option, none, some, List, [], ◌∷◌,
  ◌++◌, Text, ◌=?◌, if◌then◌else◌, leb, ltb, ◌==◌, codes, length,
}
use togewire.Prelude.Decimal.{magnitude, at_most, digits, decimal}
use togewire.Prelude.Maps.{values}
use togewire.Config.{Config, audio_bitrate, is_whitespace, trim, trim_start, trim_end}
use togewire.Types.{Track}
use togewire.Cache.Disk.{exists, starts_with}
use togewire.Cache.Store.{Entry, Store}
use togewire.Cache.Manager.{ends_with}
use togewire.Server.Auth.{len_utf8}

-- `char::is_control`
unfoldable pub is_control : ℕ → Bool
is_control c = leb c 31 || (leb 127 c && leb c 159)

unfoldable pub spaced : ℕ → ℕ
unfolding is_control is_whitespace
spaced c = if is_control c || is_whitespace c || c == b'/' || c == b'\\' then 32 else c

-- The loop that cleans; the flag is whether what is cleaned so far is empty or ends with a space.
unfoldable pub clean : Bool → Text → Text
unfolding spaced
clean at_gap [] = []
clean at_gap (c ∷ s) =
    let ch = spaced c in
    let after_space = clean true s in
    let after_char = clean false s in
    if ch == 32 then (if at_gap then after_space else 32 ∷ after_space) else ch ∷ after_char

-- The loop that keeps whole characters up to 180 bytes, `used` of them taken.
unfoldable pub cut : ℕ → Text → Text
unfolding len_utf8
cut used [] = []
cut used (c ∷ s) =
    let rest = cut (used + len_utf8 c) s in if ltb 180 (used + len_utf8 c) then [] else c ∷ rest

abbrev pub dot_or_space : ℕ → Bool
dot_or_space c = c == b'.' || c == 32

-- `trim_matches(['.', ' '])`
unfoldable pub trim_dots : Text → Text
unfolding trim_start trim_end
trim_dots s = trim_end dot_or_space (trim_start dot_or_space s)

abbrev pub or_track : Text → Text
or_track s = if s =? [] then codes "track" else s

-- "<artist> - <title>", browsable and sanitized for filesystem safety.
unfoldable pub file_stem : Track → Text
unfolding clean cut trim_dots trim
file_stem t = or_track (trim (cut 0 (trim_dots (clean true (t.artist ++ codes " - " ++ t.name)))))

-- `Path::join_path` on a folder that is not empty.
unfoldable pub join_path : Text → Text → Text
unfolding starts_with ends_with
join_path dir name =
    if starts_with (codes "/") name
    then name
    else if ends_with (codes "/") dir
    then dir ++ name
    else dir ++ codes "/" ++ name

-- The name of the `i`th try: the plain one first, then with " (1)", " (2)" and so on.
unfoldable pub numbered_as : (ℕ → Text) → Text → Text → ℕ → Text
numbered_as print base ext zero = base ++ (codes "." ++ ext)
numbered_as print base ext (suc i) = base ++ (codes " (" ++ (print (suc i) ++ (codes ")." ++ ext)))

unfoldable pub numbered : Text → Text → ℕ → Text
unfolding numbered_as
numbered base ext i = numbered_as decimal base ext i

-- The loop from the `i`th try on; `none` if the fuel runs out.
unfoldable pub first_free : ℕ → ℕ → Text → Text → Store → Option Text
unfolding join_path numbered exists
first_free zero i base ext s = none
first_free (suc fuel) i base ext s =
    let path = join_path s.inner.dir (numbered base ext i) in
    let next = first_free fuel (i + 1) base ext s in if exists path s.disk then next else some path

-- A file of the disk takes one name at most, so that one more try than there are files is enough.
unfoldable pub track_path : Track → Text → Store → Option Text
unfolding first_free file_stem
track_path t ext s = first_free (suc (length s.disk.nodes)) 0 (file_stem t) ext s

-- `str::parse::<u32>`
unfoldable pub parse_u32 : Text → Option ℕ
unfolding digits at_most
parse_u32 [] = none
parse_u32 (c ∷ s) = at_most (2 ^ 32 - 1) (magnitude (if c == b'+' then s else c ∷ s))

-- Above High (144k): what low-data streaming swaps for a 112k copy.
unfoldable pub above_144k : Text → Bool
unfolding trim_end parse_u32
above_144k bitrate = elim (parse_u32 (trim_end (λ c. c == b'k') bitrate)) [
  | none ↦ false
  | some kbps ↦ ltb 144 kbps
]

unfoldable pub entry_of_file : Text → List Entry → Option Entry
entry_of_file path [] = none
entry_of_file path (e ∷ es) =
    let rest = entry_of_file path es in if e.file_path =? path then some e else rest

-- (above 144k, already normalized) for a cached file; unknown files assume the configured bitrate.
unfoldable pub stream_flags : Text → Config → Store → Bool × Bool
unfolding above_144k entry_of_file
stream_flags path c s = elim (entry_of_file path (values s.inner.entries)) [
  | some e ↦ (above_144k e.bitrate, e.normalized)
  | none ↦ (above_144k (audio_bitrate c), false)
]
