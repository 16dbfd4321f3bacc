-- ===== src/Server/Pairing.antt =====
-- src/server/mod.rs: pairing with a Spotify account and disconnecting it.
use togewire.Prelude.{Bool, false, Option, none, some, Text}
use togewire.Config.{set_premium, set_use_librespot}
use togewire.Spotify.Client.{Json, Client, clear_session}
use togewire.Spotify.Account.{
  Pairing, started, not_started, DeviceAuthResponse, PairFailure, approved, pending, slow_down,
  poll_failed, request_device_code, poll_device_token, complete_pairing,
}
use togewire.Audio.Librespot.{Fetcher, reset}

-- The replies: the device's code or a bad gateway, and the status of a poll.
pub data StartReply : Type 0 where
  device : DeviceAuthResponse → StartReply
  bad_gateway : PairFailure → StartReply

pub data PollReply : Type 0 where
  paired : PollReply
  waiting too_fast : PollReply
  poll_error_reply : Option PairFailure → PollReply

abbrev reply_of : Pairing → StartReply
reply_of (started d) = device d
reply_of (not_started why) = bad_gateway why

abbrev paired_reply : Option Bool → PollReply
paired_reply none = poll_error_reply none
paired_reply (some premium) = paired

module _ (j : Json) where
  unfoldable pub handle_admin_pair_start : Client → Client × StartReply
  unfolding request_device_code
  handle_admin_pair_start c = let r = request_device_code j c in (r.0, reply_of r.1)

  -- An error without a failure of the service is one of saving the tokens.
  unfoldable pub handle_admin_pair_poll : Text → Client → Client × PollReply
  unfolding poll_device_token complete_pairing
  handle_admin_pair_poll code c =
      let r = poll_device_token j code c in
      elim r.1 [
        | approved token ↦ let d = complete_pairing j token r.0 in (d.0, paired_reply d.1)
        | pending ↦ (r.0, waiting)
        | slow_down ↦ (r.0, too_fast)
        | poll_failed why ↦ (r.0, poll_error_reply (some why))
      ]

-- Disconnecting the account: the librespot fetcher has the client of Spotify.
unfoldable pub handle_admin_disconnect : Fetcher → Fetcher
unfolding clear_session reset
handle_admin_disconnect s =
    let cleared = reset (record s { client = clear_session s.client }) in
    record cleared {
      client = record (cleared.client) {
        process = set_premium none (set_use_librespot false cleared.client.process);
      };
    }
