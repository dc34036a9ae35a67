-- ===== src/Can/Route.antt =====
-- src/can/can_rx_route.cpp: which of the decoders of src/can gets a frame that was received, over the models of
-- all three. `obd_time` is the time at which the poller's value is stored.
pub mod Separate
use canshift_firmware.Prelude.{ℕ, Bool, true, false, none, some, List, length}
use canshift_firmware.Signals.{Store, update}
use canshift_firmware.Obd2.Dtc.{Dtc}
use canshift_firmware.Obd2.Dtc as Dtc
use canshift_firmware.Obd2.Poller.{Poller, Decode}
use canshift_firmware.Obd2.Poller as Poller
use canshift_firmware.Can.Parser.{Env, Parser, parse_frame}

module _ {Float Token : Type 0} (env : Env Float Token) (decode : Decode Float) (obd_time : ℕ) where
  -- `Obd2Poller::onRxFrame` with the store that it makes, and `CanParser::parseFrame` where it answers false.
  unfoldable pub poll_or_parse :
      ℕ → List ℕ → Poller Float → Parser Float Token → Store Float → Store Float
  unfolding canshift_firmware.Obd2.Poller.on_rx_frame
  poll_or_parse id bytes poller p s =
      elim (Poller.on_rx_frame decode id (some bytes) (length bytes) poller) [
        | some (signal_id, value) ↦ update env.is_finite env.display_step signal_id value obd_time s
        | none ↦ parse_frame env id bytes p s
      ]

  -- What follows on the answer of `Obd2Dtc::onRxFrame`.
  abbrev pub unless_consumed :
      ℕ → List ℕ → Poller Float → Parser Float Token → Store Float → Dtc × Bool → Dtc × Store Float
  unless_consumed id bytes poller p s (d, true) = (d, s)
  unless_consumed id bytes poller p s (d, false) = (d, poll_or_parse id bytes poller p s)

  unfoldable pub deliver :
      ℕ → List ℕ → Dtc → Poller Float → Parser Float Token → Store Float → Dtc × Store Float
  deliver id bytes d poller p s =
      unless_consumed id bytes poller p s (Dtc.on_rx_frame id (some bytes) (length bytes) d)
