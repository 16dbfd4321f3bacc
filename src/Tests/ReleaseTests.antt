-- ===== src/Tests/ReleaseTests.antt =====
-- src/audio/ytdlp.rs: a download with its checksum.
use togewire.Prelude.{◌≡◌, refl, true, some, none, List, [], ◌∷◌, ◌++◌, Text, codes}
use togewire.Server.Auth.{hex}
use togewire.Stream.Pipe.{Bytes}
use togewire.Audio.Releases.{lines, fetched, checksum_missing, checksum_mismatch, download_verified}
use togewire.Audio.ReleaseLaws.{Listed, download_verified-Listed}

abbrev sixteen : Text
sixteen = codes "0A0A0A0A0A0A0A0A"

abbrev eight_bytes : Bytes
eight_bytes = 10 ∷ 10 ∷ 10 ∷ 10 ∷ 10 ∷ 10 ∷ 10 ∷ 10 ∷ []

abbrev digest : Bytes → Bytes
digest [] = []
digest (b ∷ bs) = eight_bytes ++ (eight_bytes ++ (eight_bytes ++ eight_bytes))

abbrev sums_file : Text
sums_file =
    sixteen
    ++ (sixteen ++ (sixteen ++ (sixteen ++ (codes "  *bin/yt-dlp" ++ (10 ∷ codes "abc  deno")))))

abbrev tool : Bytes
tool = 1 ∷ 2 ∷ []

tool_fetched :
    download_verified digest true (some sums_file) (some tool) (codes "yt-dlp") ≡ fetched tool
unfolding download_verified hex togewire.Config.is_whitespace togewire.Prelude.Text-discrete
    togewire.Prelude.all togewire.Config.trim_start togewire.Cache.Disk.starts_with
    togewire.Cache.Manager.ends_with togewire.Server.Addresses.to_ascii_lowercase
tool_fetched = refl

unlisted :
    download_verified digest true (some sums_file) (some tool) (codes "deno") ≡ checksum_missing
unfolding download_verified togewire.Config.is_whitespace togewire.Prelude.Text-discrete
    togewire.Prelude.all togewire.Config.trim_start togewire.Cache.Disk.starts_with
    togewire.Cache.Manager.ends_with
unlisted = refl

other_bytes :
    download_verified digest true (some sums_file) (some []) (codes "yt-dlp") ≡ checksum_mismatch
unfolding download_verified hex togewire.Config.is_whitespace togewire.Prelude.Text-discrete
    togewire.Prelude.all togewire.Config.trim_start togewire.Cache.Disk.starts_with
    togewire.Cache.Manager.ends_with
other_bytes = refl

download_verified-Listed_example :
    (some tool ≡ some tool)
    × ((text : Text) × (some sums_file ≡ some text)
        × Listed (codes "yt-dlp") (hex (digest tool)) (lines text))
download_verified-Listed_example =
    download_verified-Listed digest true (some sums_file) (some tool) (codes "yt-dlp") tool
      tool_fetched
