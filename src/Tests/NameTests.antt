-- ===== src/Tests/NameTests.antt =====
-- src/cache.rs: names of files at hostile titles.
use togewire.Prelude.{
  ℕ, ◌≤◌, ◌<◌, ◌≡◌, ◌≢◌, refl, Bool, true, false, Option, none, some, List, [], ◌∷◌, ◌++◌, Text,
  codes, arith, length,
}
use togewire.Prelude.Int.{pos}
use togewire.Types.{Track, release_year}
use togewire.Cache.Disk.{Kind, exists}
use togewire.Cache.Store.{Store}
use togewire.Cache.Naming.{file_stem, track_path, numbered}
use togewire.Cache.NamingLaws.{IsFileName, file_stem-IsFileName}
use togewire.Cache.FreeNames.{under, track_path-free}

abbrev hostile : Track
hostile = record {
  id = codes "x";
  name = codes "a/b\\c";
  artist = codes "../../etc";
  album = [];
  album_artist = none;
  duration = pos 0;
  explicit = false;
  cover_url = none;
  release_date = some (codes "1973-03-01");
  track_number = none;
  disc_number = none;
}

hostile_stem : file_stem hostile ≡ codes "etc - a b c"
unfolding file_stem togewire.Prelude.Text-discrete
hostile_stem = refl

hostile_year : release_year hostile ≡ some (codes "1973")
unfolding release_year
hostile_year = refl

file_stem-IsFileName_example : IsFileName (file_stem hostile)
file_stem-IsFileName_example = file_stem-IsFileName hostile

-- The plain name is taken.
abbrev crowded : Store
crowded = record {
  inner = record {
    dir = codes "cache";
    meta_file = [];
    max_bytes = pos 60;
    entries = [];
    order = [];
    total_size_bytes = pos 0;
  };
  disk = record {
    nodes =
        (
          codes "cache/etc - a b c.ogg",
          record { folder = codes "cache"; name = codes "etc - a b c.ogg"; kind = Kind.file 1 },
        )
        ∷ [];
    refuses = λ p. false;
    lists = λ p. true;
    metadata = none;
  };
}

second_name : track_path hostile (codes "ogg") crowded ≡ some (codes "cache/etc - a b c (1).ogg")
unfolding track_path togewire.Prelude.Text-discrete togewire.Prelude.Decimal.decimal
    togewire.Prelude.Decimal.decimal_digits
second_name = refl

track_path-free_example :
    (p : Text) × (track_path hostile (codes "ogg") crowded ≡ some p)
    × (exists p crowded.disk ≡ false)
    × (n : ℕ) × (p ≡ under (codes "cache") ++ numbered (file_stem hostile) (codes "ogg") n)
    × IsFileName (file_stem hostile)
track_path-free_example = track_path-free hostile (codes "ogg") crowded (omega arith)
