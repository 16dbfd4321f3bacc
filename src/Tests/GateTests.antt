-- ===== src/Tests/GateTests.antt =====
-- src/server/mod.rs: requests for the dashboard.
use togewire.Prelude.{
  ◌⊎◌, ◌≡◌, refl, Bool, true, false, Option, none, some, [], ◌∷◌, ◌++◌, Text, codes,
}
use togewire.Config.{Config, default_config}
use togewire.Server.Auth.{Crypto, session_token}
use togewire.Server.Gate.{
  HttpRequest, post_method, cache_clear, run, build_router, mime_of, blocked_cross_site,
}
use togewire.Server.GateLaws.{Admitted, build_router-Admitted}

abbrev crypto : Crypto
crypto = record {
  sha256 = λ bytes. bytes;
  bcrypt_hash = λ password. some password;
  bcrypt_verify = λ password hash. true;
}

abbrev cfg : Config
cfg = record default_config { admin_password_hash = codes "H" }

abbrev clearing : Text → HttpRequest
clearing origin = record {
  method = post_method;
  target = codes "/admin/cache/clear";
  headers = record {
    host = some (codes "radio.example");
    origin = some origin;
    referer = none;
    cookies = some (codes "a=b; togewire_session=" ++ session_token crypto (codes "H")) ∷ [];
    authorization = none;
    forwarded_proto = none;
  };
}

cleared_by_admin :
    build_router crypto cfg (clearing (codes "https://radio.example")) ≡ run cache_clear
unfolding build_router togewire.Prelude.Text-discrete togewire.Server.Addresses.same_origin_post
    togewire.Server.Addresses.host_from_absolute_url togewire.Server.Addresses.strip_prefix
    togewire.Cache.Disk.starts_with togewire.Server.Addresses.first_host
    togewire.Server.Addresses.split togewire.Server.Addresses.eq_ignore_ascii_case
    togewire.Server.Addresses.to_ascii_lowercase togewire.Config.trim session_token
    togewire.Server.Auth.is_valid_session
cleared_by_admin = refl

other_site : build_router crypto cfg (clearing (codes "https://evil.example")) ≡ blocked_cross_site
unfolding build_router togewire.Prelude.Text-discrete togewire.Server.Addresses.same_origin_post
    togewire.Server.Addresses.host_from_absolute_url togewire.Server.Addresses.strip_prefix
    togewire.Cache.Disk.starts_with togewire.Server.Addresses.first_host
    togewire.Server.Addresses.split togewire.Server.Addresses.eq_ignore_ascii_case
other_site = refl

script_type : mime_of (codes "app.min.js") ≡ codes "text/javascript"
unfolding mime_of togewire.Prelude.Text-discrete
script_type = refl

build_router-Admitted_example :
    Admitted crypto cfg (clearing (codes "https://radio.example")) cache_clear
build_router-Admitted_example =
    build_router-Admitted crypto cfg (clearing (codes "https://radio.example")) cache_clear
      cleared_by_admin
