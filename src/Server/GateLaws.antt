-- ===== src/Server/GateLaws.antt =====
-- src/server/mod.rs: who reaches which handler.
use togewire.Prelude.{
  ◌≡◌, refl, ◌∙◌, sym, ◌⊎◌, inl, inr, Bool, true, false, not, ◌&&◌, none, some, List, [], ◌∷◌, Text,
  Text-discrete, arith, subst, codes, if◌then◌else◌, Option-cases,
}
use togewire.Prelude.Maps.{get}
use togewire.Config.{Config}
use togewire.Types.{or, is_empty}
use togewire.Server.Addresses.{strip_prefix}
use togewire.Server.Auth.{Crypto}
use togewire.Server.Gate.{
  Method, get_method, head_method, post_method, other_method, Headers, HttpRequest, Route,
  dashboard, pair_start, pair_poll, disconnect, player_switch, cache_settings, cache_clear, push,
  events, static_file, admin_get, admin_post, open_get, open_post, admin_route, open_route,
  static_route, same_origin, is_post, valid_togedemon_token, run, not_found, is_admin,
  require_admin, with_push_token, open_dispatch, build_router,
}

-- The handlers of the dashboard, those of them that change something, and those for togedemon.
abbrev pub changes : Route → Bool
changes pair_start = true
changes pair_poll = true
changes disconnect = true
changes player_switch = true
changes cache_settings = true
changes cache_clear = true
changes r = false

abbrev pub is_dashboard : Route → Bool
is_dashboard dashboard = true
is_dashboard r = false

abbrev pub for_togedemon : Route → Bool
for_togedemon push = true
for_togedemon events = true
for_togedemon r = false

abbrev every : (Route → Bool) → List (Text × Route) → Bool
every p [] = true
every p ((k, r) ∷ m) = p r && every p m

get-every :
    (p : Route → Bool) (m : List (Text × Route)) (k : Text) (r : Route)
    → every p m ≡ true
    → get Text-discrete k m ≡ some r
    → p r ≡ true
unfolding get
get-every p [] k r h e = absurd (cc)
get-every p ((j, x) ∷ m) k r h e = let ih = get-every p m k r in ground arith

-- Outside the admin table nothing is the dashboard's.
abbrev is_open : Route → Bool
is_open r = not (changes r) && not (is_dashboard r)

static-is_open : (t : Text) (r : Route) → static_route t ≡ some r → is_open r ≡ true
static-is_open t r e = elim (Option-cases (strip_prefix (codes "/static/") t)) [
  | inl n ↦ let bad : none ≡ some r = sym (rw n refl) ∙ e in absurd (cc)
  | inr (rest, n) ↦
      let file : (if is_empty rest then none else some (static_file rest)) ≡ some r =
        sym (rw n refl) ∙ e in
      file_route rest (is_empty rest) file
]
  where
    file_route :
        (rest : Text) (b : Bool)
        → (if b then none else some (static_file rest)) ≡ some r
        → is_open r ≡ true
    file_route rest true h = absurd (cc)
    file_route rest false h =
        let eq : static_file rest ≡ r = cc in subst (λ x. is_open x ≡ true) eq refl

open_page :
    (t : Text) (r : Route)
    → or (get Text-discrete t open_get) (static_route t) ≡ some r
    → is_open r ≡ true
open_page t r e = elim (Option-cases (get Text-discrete t open_get)) [
  | inl n ↦ static-is_open t r (sym (rw n refl) ∙ e)
  | inr (x, n) ↦
      let found : some x ≡ some r = sym (rw n refl) ∙ e in
      get-every is_open open_get t r refl (n ∙ found)
]

open_route-is_open :
    (m : Method) (t : Text) (r : Route) → open_route m t ≡ some r → is_open r ≡ true
unfolding open_route
open_route-is_open get_method t r e = open_page t r e
open_route-is_open head_method t r e = open_page t r e
open_route-is_open post_method t r e = get-every is_open open_post t r refl e
open_route-is_open other_method t r e = absurd (cc)

abbrev stays : Route → Bool
stays r = not (changes r)

not-true : (b : Bool) → not b ≡ true → b ≡ false
not-true true h = cc
not-true false h = refl

-- A change is reached by a post.
admin_route-post :
    (m : Method) (t : Text) (r : Route)
    → admin_route m t ≡ some r
    → (changes r ≡ false) ⊎ (is_post m ≡ true)
unfolding admin_route
admin_route-post get_method t r e =
    inl (not-true (changes r) (get-every stays admin_get t r refl e))
admin_route-post head_method t r e =
    inl (not-true (changes r) (get-every stays admin_get t r refl e))
admin_route-post post_method t r e = inr refl
admin_route-post other_method t r e = absurd (cc)

-- No handler of togedemon's is behind the session.
abbrev quiet_route : Route → Bool
quiet_route r = not (for_togedemon r)

admin_route-quiet :
    (m : Method) (t : Text) (r : Route) → admin_route m t ≡ some r → for_togedemon r ≡ false
unfolding admin_route
admin_route-quiet get_method t r e =
    not-true (for_togedemon r) (get-every quiet_route admin_get t r refl e)
admin_route-quiet head_method t r e =
    not-true (for_togedemon r) (get-every quiet_route admin_get t r refl e)
admin_route-quiet post_method t r e =
    not-true (for_togedemon r) (get-every quiet_route admin_post t r refl e)
admin_route-quiet other_method t r e = absurd (cc)

both_false : (a b : Bool) → (not a && not b) ≡ true → (a ≡ false) × (b ≡ false)
both_false true b h = absurd (cc)
both_false false true h = absurd (cc)
both_false false false h = (refl, refl)

open_parts : (r : Route) → is_open r ≡ true → (changes r ≡ false) × (is_dashboard r ≡ false)
open_parts r h = both_false (changes r) (is_dashboard r) h

module _ (c : Crypto) (cfg : Config) where
  to_admin :
      (q : HttpRequest) (x : Route)
      → admin_route q.method q.target ≡ some x
      → build_router c cfg q ≡ require_admin c cfg q.method q.headers x
  unfolding build_router
  to_admin q x e = cc

  to_open :
      (q : HttpRequest) (x : Route)
      → admin_route q.method q.target ≡ none
      → open_route q.method q.target ≡ some x
      → build_router c cfg q ≡ open_dispatch c cfg q.headers x
  unfolding build_router
  to_open q x e f = cc

  to_nothing :
      (q : HttpRequest)
      → admin_route q.method q.target ≡ none
      → open_route q.method q.target ≡ none
      → build_router c cfg q ≡ not_found
  unfolding build_router
  to_nothing q e f = cc

  -- What holds of a request whose handler runs.
  abbrev pub Admitted : HttpRequest → Route → Type 0
  Admitted q r =
      ((changes r ≡ false) ⊎ ((is_admin c cfg q.headers ≡ true) × (same_origin q.headers ≡ true)))
      × ((is_dashboard r ≡ false) ⊎ (is_admin c cfg q.headers ≡ true))
      × ((for_togedemon r ≡ false) ⊎ (valid_togedemon_token cfg q.headers ≡ true))

  require_admin-run :
      (m : Method) (h : Headers) (x r : Route)
      → require_admin c cfg m h x ≡ run r
      → (x ≡ r) × (is_admin c cfg h ≡ true) × ((is_post m ≡ false) ⊎ (same_origin h ≡ true))
  unfolding require_admin
  require_admin-run m h x r e = ground arith

  open_dispatch-run :
      (h : Headers) (x r : Route)
      → open_dispatch c cfg h x ≡ run r
      → (x ≡ r) × ((for_togedemon x ≡ false) ⊎ (valid_togedemon_token cfg h ≡ true))
  unfolding open_dispatch with_push_token
  open_dispatch-run h x r e = ground arith

  admin-Admitted :
      (q : HttpRequest) (x r : Route)
      → admin_route q.method q.target ≡ some x
      → require_admin c cfg q.method q.headers x ≡ run r
      → Admitted q r
  admin-Admitted q x r found e =
      let (same, admin, origin) = require_admin-run q.method q.headers x r e in
      let posted = admin_route-post q.method q.target x found in
      let quiet = admin_route-quiet q.method q.target x found in
      rw (← same) (changing x admin posted origin, inr admin, inl quiet)
    where
      changing :
          (y : Route)
          → is_admin c cfg q.headers ≡ true
          → (changes y ≡ false) ⊎ (is_post q.method ≡ true)
          → (is_post q.method ≡ false) ⊎ (same_origin q.headers ≡ true)
          → (changes y ≡ false)
            ⊎ ((is_admin c cfg q.headers ≡ true) × (same_origin q.headers ≡ true))
      changing y admin (inl no_change) origin = inl no_change
      changing y admin (inr post) (inr own) = inr (admin, own)
      changing y admin (inr post) (inl no_post) =
          let bad : true ≡ false = sym post ∙ no_post in absurd (cc)

  open-Admitted :
      (q : HttpRequest) (x r : Route)
      → open_route q.method q.target ≡ some x
      → open_dispatch c cfg q.headers x ≡ run r
      → Admitted q r
  open-Admitted q x r found e =
      let (same, token) = open_dispatch-run q.headers x r e in
      let harmless = open_route-is_open q.method q.target x found in
      let (no_change, no_dashboard) = open_parts x harmless in
      rw (← same) (inl no_change, inl no_dashboard, token)

  -- If the router runs a handler for a request: one of the dashboard's that changes something only for a
  -- valid session cookie and the same origin, the dashboard itself only for a valid session cookie, and
  -- those of togedemon only for the configured token.
  pub build_router-Admitted :
      (q : HttpRequest) (r : Route) → build_router c cfg q ≡ run r → Admitted q r
  build_router-Admitted q r e = elim (Option-cases (admin_route q.method q.target)) [
    | inr (x, found) ↦ admin-Admitted q x r found (sym (to_admin q x found) ∙ e)
    | inl none_there ↦ elim (Option-cases (open_route q.method q.target)) [
      | inr (x, found) ↦ open-Admitted q x r found (sym (to_open q x none_there found) ∙ e)
      | inl nowhere ↦ let bad = sym (to_nothing q none_there nowhere) ∙ e in absurd (cc)
    ]
  ]
