-- ===== src/Server/Gate.antt =====
-- src/server/mod.rs: the router: which handler runs for a request, and what it takes to reach it.
use togewire.Prelude.{
  ℕ, Bool, true, false, not, ◌&&◌, Option, none, some, List, [], ◌∷◌, ◌++◌, Text, Text-discrete,
  ◌=?◌, if◌then◌else◌, ◌==◌, codes, reverse,
}
use togewire.Prelude.Maps.{get}
use togewire.Config.{Config, trim}
use togewire.Types.{is_empty, or}
use togewire.Cache.Disk.{starts_with}
use togewire.Server.Auth.{Crypto, is_valid_session}
use togewire.Server.Addresses.{IpAddr, is_trusted_proxy, split, strip_prefix, same_origin_post}
use togewire.Spotify.Json.{and_then, find_map}

-- HEAD is served as GET.
pub data Method : Type 0 where
  get_method head_method post_method other_method : Method

-- The headers that are read, where they are texts; there may be several of cookies.
pub record Headers : Type 0 where
  pub host : Option Text
  pub origin : Option Text
  pub referer : Option Text
  pub cookies : List (Option Text)
  pub authorization : Option Text
  pub forwarded_proto : Option Text

pub record HttpRequest : Type 0 where
  pub method : Method
  pub target : Text
  pub headers : Headers

pub data Route : Type 0 where
  dashboard pair_start pair_poll disconnect player_switch cache_settings cache_clear : Route
  root_page player_page ping stream_audio open_ws push events login_page_route login_post : Route
  static_file : Text → Route

abbrev pub admin_get : List (Text × Route)
admin_get = (codes "/admin", dashboard) ∷ []

abbrev pub admin_post : List (Text × Route)
admin_post =
    (codes "/admin/pair/start", pair_start)
    ∷ (codes "/admin/pair/poll", pair_poll)
    ∷ (codes "/admin/disconnect", disconnect)
    ∷ (codes "/admin/player", player_switch)
    ∷ (codes "/admin/cache", cache_settings)
    ∷ (codes "/admin/cache/clear", cache_clear)
    ∷ []

abbrev pub open_get : List (Text × Route)
open_get =
    (codes "/", root_page)
    ∷ (codes "/player", player_page)
    ∷ (codes "/ping", ping)
    ∷ (codes "/stream", stream_audio)
    ∷ (codes "/ws", open_ws)
    ∷ (codes "/togedemon/events", events)
    ∷ (codes "/admin/login", login_page_route)
    ∷ []

abbrev pub open_post : List (Text × Route)
open_post = (codes "/togedemon/push", push) ∷ (codes "/admin/login", login_post) ∷ []

abbrev pub static_route : Text → Option Route
static_route target =
    and_then (strip_prefix (codes "/static/") target)
      (λ rest. if is_empty rest then none else some (static_file rest))

-- The first table is behind `require_admin`, the second is open.
unfoldable pub admin_route : Method → Text → Option Route
unfolding get
admin_route get_method target = get Text-discrete target admin_get
admin_route head_method target = get Text-discrete target admin_get
admin_route post_method target = get Text-discrete target admin_post
admin_route other_method target = none

unfoldable pub open_route : Method → Text → Option Route
unfolding get
open_route get_method target = or (get Text-discrete target open_get) (static_route target)
open_route head_method target = or (get Text-discrete target open_get) (static_route target)
open_route post_method target = get Text-discrete target open_post
open_route other_method target = none

abbrev is_semicolon : ℕ → Bool
is_semicolon c = c == b';'

unfoldable pub cookie_parts : List (Option Text) → List Text
cookie_parts [] = []
cookie_parts (none ∷ vs) = cookie_parts vs
cookie_parts (some v ∷ vs) = split is_semicolon v ++ cookie_parts vs

abbrev session_value : Text → Option Text
session_value c =
    and_then (strip_prefix (codes "togewire_session") (trim c)) (strip_prefix (codes "="))

unfoldable pub request_session_cookie : Headers → Option Text
unfolding cookie_parts find_map
request_session_cookie h = find_map session_value (cookie_parts h.cookies)

abbrev pub same_origin : Headers → Bool
same_origin h = same_origin_post h.host h.origin h.referer

abbrev pub is_post : Method → Bool
is_post post_method = true
is_post m = false

-- `ct_eq` of the bytes is equality.
unfoldable pub valid_togedemon_token : Config → Headers → Bool
valid_togedemon_token cfg h =
    let provided : Option Text = and_then h.authorization (strip_prefix (codes "Bearer ")) in
    not (is_empty cfg.togedemon_token)
    && (elim provided [ none ↦ [] =? cfg.togedemon_token | some t ↦ t =? cfg.togedemon_token ])

unfoldable pub is_request_secure : Headers → IpAddr → Bool
is_request_secure h peer =
    is_trusted_proxy peer
    && (elim h.forwarded_proto [ none ↦ false | some proto ↦ trim proto =? codes "https" ])

-- What the router does with a request: run a handler, or answer by itself. A known path with a method
-- that it does not take is among `not_found` here.
pub data Dispatch : Type 0 where
  run : Route → Dispatch
  blocked_cross_site to_login invalid_token not_found : Dispatch

module _ (c : Crypto) (cfg : Config) where
  unfoldable pub is_admin : Headers → Bool
  unfolding request_session_cookie
  is_admin h = elim (request_session_cookie h) [
    | none ↦ false
    | some t ↦ is_valid_session c cfg.admin_password_hash t
  ]

  unfoldable pub require_admin : Method → Headers → Route → Dispatch
  unfolding is_admin
  require_admin m h r =
      if is_post m && not (same_origin h)
      then blocked_cross_site
      else if is_admin h
      then run r
      else to_login

  -- The check of the token is the first thing that the handlers of togedemon do.
  unfoldable pub with_push_token : Headers → Route → Dispatch
  unfolding valid_togedemon_token
  with_push_token h r = if valid_togedemon_token cfg h then run r else invalid_token

  unfoldable pub open_dispatch : Headers → Route → Dispatch
  unfolding with_push_token
  open_dispatch h push = with_push_token h push
  open_dispatch h events = with_push_token h events
  open_dispatch h r = run r

  unfoldable pub build_router : HttpRequest → Dispatch
  unfolding admin_route open_route require_admin open_dispatch
  build_router q = elim (admin_route q.method q.target) [
    | some r ↦ require_admin q.method q.headers r
    | none ↦ elim (open_route q.method q.target) [
      | some r ↦ open_dispatch q.headers r
      | none ↦ not_found
    ]
  ]

-- The headers that every response gets, by the path of the request.
unfoldable pub security_headers : Text → List (Text × Text)
security_headers target =
    (codes "x-content-type-options", codes "nosniff")
    ∷ (codes "referrer-policy", codes "strict-origin-when-cross-origin")
    ∷ (
      codes "content-security-policy",
      codes "default-src 'none'; script-src 'self'; style-src 'self'; connect-src 'self'; "
          ++ codes "media-src 'self'; img-src 'self' data:; font-src 'self'; form-action 'self'; "
          ++ codes "base-uri 'self'; frame-ancestors 'self'",
    )
    ∷ (if target =? codes "/ping"
        then (codes "access-control-allow-origin", codes "*")
        else (codes "x-frame-options", codes "SAMEORIGIN"))
    ∷ (if starts_with (codes "/admin") target
        then (codes "cache-control", codes "no-store") ∷ []
        else [])

-- The type of a static file, by what follows its last dot.
unfoldable pub mime_of : Text → Text
unfolding split
mime_of name = elim (reverse (split (λ ch. ch == b'.') name)) [
  | [] ↦ codes "application/octet-stream"
  | ext ∷ rest ↦
      if ext =? codes "css"
      then codes "text/css"
      else if ext =? codes "js"
      then codes "text/javascript"
      else if ext =? codes "woff2"
      then codes "font/woff2"
      else if ext =? codes "txt"
      then codes "text/plain; charset=utf-8"
      else codes "application/octet-stream"
]
