-- ===== src/Server/Addresses.antt =====
-- src/server/mod.rs: whose request it is, behind proxies, and whether a post is of the same origin.
use mathlib.Core.List.{reverse}
use togewire.Prelude.{
  ℕ, ◌+◌, ◌/◌, ◌%◌, Bool, false, ◌&&◌, ◌||◌, Option, none, some, List, [], ◌∷◌, ◌++◌, Text, ◌=?◌,
  if◌then◌else◌, leb, ◌==◌, codes, map, drop, length,
}
use togewire.Config.{trim}
use togewire.Cache.Disk.{starts_with}

-- `IpAddr`: four octets, or eight segments of 16 bits.
pub data IpAddr : Type 0 where
  v4 : ℕ → ℕ → ℕ → ℕ → IpAddr
  v6 : ℕ → ℕ → ℕ → ℕ → ℕ → ℕ → ℕ → ℕ → IpAddr

-- How the standard library reads an address and prints an IPv4 address and a number in base 16.
pub record Net : Type 0 where
  pub parse : Text → Option IpAddr
  pub print : IpAddr → Text
  pub print_hex : ℕ → Text

-- An IPv6 address that stands for an IPv4 address is that address.
unfoldable pub to_canonical : IpAddr → IpAddr
to_canonical (v4 a b c d) = v4 a b c d
to_canonical (v6 a b c d e f g h) =
    if a == 0 && b == 0 && c == 0 && d == 0 && e == 0 && f == 0xFFFF
    then v4 (g / 256) (g % 256) (h / 256) (h % 256)
    else v6 a b c d e f g h

unfoldable pub is_private_or_loopback : IpAddr → Bool
is_private_or_loopback (v4 a b c d) =
    a == 127 || a == 10 || (a == 172 && leb 16 b && leb b 31) || (a == 192 && b == 168)
is_private_or_loopback (v6 a b c d e f g h) =
    (a == 0 && b == 0 && c == 0 && d == 0 && e == 0 && f == 0 && g == 0 && h == 1) || a / 512 == 126

unfoldable pub is_trusted_proxy : IpAddr → Bool
unfolding to_canonical is_private_or_loopback
is_trusted_proxy ip = is_private_or_loopback (to_canonical ip)

-- `split` at the characters of `p`.
unfoldable pub split_first : ℕ → List Text → List Text
split_first c [] = (c ∷ []) ∷ []
split_first c (s ∷ ss) = (c ∷ s) ∷ ss

unfoldable pub split : (ℕ → Bool) → Text → List Text
unfolding split_first
split p [] = [] ∷ []
split p (c ∷ s) = let rest = split p s in if p c then [] ∷ rest else split_first c rest

abbrev pub is_comma : ℕ → Bool
is_comma c = c == b','

unfoldable pub rsplit : Text → List Text
unfolding split
rsplit s = reverse (split is_comma s)

-- The hops, nearest first; a value that is no text, `none`, counts as an empty one.
unfoldable pub hops : List (Option Text) → List Text
unfolding rsplit
hops [] = []
hops (none ∷ vs) = hops vs ++ [] ∷ []
hops (some v ∷ vs) = hops vs ++ rsplit v

module _ (net : Net) where
  unfoldable pub walk : List Text → Option IpAddr → Option IpAddr
  walk [] client = client
  walk (hop ∷ rest) client = elim (net.parse (trim hop)) [
    | none ↦ client
    | some ip ↦
        let further = walk rest (some ip) in if is_trusted_proxy ip then further else some ip
  ]

  unfoldable pub forwarded_client_ip : List (Option Text) → Option IpAddr
  forwarded_client_ip values = walk (hops values) none

  unfoldable pub client_key : IpAddr → Text
  client_key (v4 a b c d) = net.print (v4 a b c d)
  client_key (v6 a b c d e f g h) =
      net.print_hex a
      ++ codes ":"
      ++ net.print_hex b
      ++ codes ":"
      ++ net.print_hex c
      ++ codes ":"
      ++ net.print_hex d
      ++ codes "::/64"

  unfoldable pub or_peer : IpAddr → Option IpAddr → IpAddr
  or_peer peer none = peer
  or_peer peer (some ip) = ip

  -- From the values of `x-forwarded-for` and the address of the peer.
  unfoldable pub client_ip : List (Option Text) → IpAddr → Text
  client_ip values peer = client_key (
      to_canonical
        (or_peer peer (if is_trusted_proxy peer then forwarded_client_ip values else none)))

unfoldable pub strip_prefix : Text → Text → Option Text
strip_prefix prefix s = if starts_with prefix s then some (drop (length prefix) s) else none

abbrev pub or_else_text : Option Text → Option Text → Option Text
or_else_text (some a) b = some a
or_else_text none b = b

abbrev pub is_path_start : ℕ → Bool
is_path_start c = c == b'/' || c == b'?' || c == b'#'

unfoldable pub first_host : List Text → Option Text
first_host [] = none
first_host (host ∷ rest) = if host =? [] then none else some host

unfoldable pub host_from_absolute_url : Text → Option Text
host_from_absolute_url url =
    elim (or_else_text (strip_prefix (codes "https://") url) (strip_prefix (codes "http://") url)) [
      | none ↦ none
      | some rest ↦ first_host (split is_path_start rest)
    ]

unfoldable pub to_ascii_lowercase : ℕ → ℕ
to_ascii_lowercase c = if leb 65 c && leb c 90 then c + 32 else c

unfoldable pub eq_ignore_ascii_case : Text → Text → Bool
eq_ignore_ascii_case a b = map to_ascii_lowercase a =? map to_ascii_lowercase b

-- From the headers `host`, `origin` and `referer`, where they are texts.
unfoldable pub same_origin_post : Option Text → Option Text → Option Text → Bool
same_origin_post none origin referer = false
same_origin_post (some host) origin referer = elim (or_else_text origin referer) [
  | none ↦ false
  | some url ↦ elim (host_from_absolute_url url) [
    | none ↦ false
    | some h ↦ eq_ignore_ascii_case h host
  ]
]
