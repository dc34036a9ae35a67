-- ===== src/Can/Route/Separate.antt =====
-- Frames of OBD-II responses and the others do not meet in src/can/can_rx_route.cpp.
use canshift_firmware.Prelude.{
  ℕ, ◌≡◌, ◌≢◌, refl, ap, sym, ◌∙◌, Bool, true, false, none, some, List, length, arith,
}
use canshift_firmware.Signals.{Store}
use canshift_firmware.Obd2.Dtc.{Dtc, rx_accepts, rx_publish, rx_record}
use canshift_firmware.Obd2.Dtc as Dtc
use canshift_firmware.Obd2.Poller.{Poller, Decode, response_frame_id}
use canshift_firmware.Obd2.Poller as Poller
use canshift_firmware.Can.Parser.{Env, Parser, parse_frame}
use canshift_firmware.Can.Route.{poll_or_parse, unless_consumed, deliver}

module _ {Float Token : Type 0} (env : Env Float Token) (decode : Decode Float) (obd_time : ℕ) where
  passed_on :
      (id : ℕ) (bytes : List ℕ) (poller : Poller Float)
      → id ≢ response_frame_id
      → Poller.on_rx_frame decode id (some bytes) (length bytes) poller ≡ none
  unfolding canshift_firmware.Obd2.Poller.on_rx_frame
  passed_on id bytes poller other = ground arith

  not_polled :
      (id : ℕ) (bytes : List ℕ) (poller : Poller Float) (p : Parser Float Token) (s : Store Float)
      → id ≢ response_frame_id
      → poll_or_parse env decode obd_time id bytes poller p s ≡ parse_frame env id bytes p s
  unfolding poll_or_parse
  not_polled id bytes poller p s other = rw (passed_on id bytes poller other, poll_or_parse) refl

  not_accepted :
      (id : ℕ) (bytes : List ℕ) (d : Dtc)
      → id ≢ response_frame_id
      → Dtc.on_rx_frame id (some bytes) (length bytes) d ≡ (d, false)
  unfolding canshift_firmware.Obd2.Dtc.on_rx_frame canshift_firmware.Obd2.Dtc.rx_accepts
  not_accepted id bytes d other = ground arith

  accepted_lem :
      (id : ℕ) (bytes : List ℕ) (d : Dtc)
      → rx_accepts d.pending id (some bytes) (length bytes) ≡ true
      → Dtc.on_rx_frame id (some bytes) (length bytes) d
        ≡ (rx_publish (rx_record d.pending (some bytes) (length bytes) d), true)
  unfolding canshift_firmware.Obd2.Dtc.on_rx_frame
  accepted_lem id bytes d e = rw e refl

  refused_lem :
      (id : ℕ) (bytes : List ℕ) (d : Dtc)
      → rx_accepts d.pending id (some bytes) (length bytes) ≡ false
      → Dtc.on_rx_frame id (some bytes) (length bytes) d ≡ (d, false)
  unfolding canshift_firmware.Obd2.Dtc.on_rx_frame
  refused_lem id bytes d e = rw e refl

  -- A frame that is no OBD-II response is decoded by the table of signals, whatever exchange is under way and
  -- whatever is polled, and the exchange stays as it is. A frame that answers the exchange changes no value, and
  -- one that does not answer it leaves it as it is.
  pub deliver-separates :
      (id : ℕ) (bytes : List ℕ) (d : Dtc) (poller : Poller Float) (p : Parser Float Token)
      (s : Store Float)
      → let out = deliver env decode obd_time id bytes d poller p s in
        (id ≢ response_frame_id → out ≡ (d, parse_frame env id bytes p s))
        × (rx_accepts d.pending id (some bytes) (length bytes) ≡ true
            → out ≡ ((Dtc.on_rx_frame id (some bytes) (length bytes) d).0, s))
        × (rx_accepts d.pending id (some bytes) (length bytes) ≡ false → out.0 ≡ d)
  unfolding deliver
  deliver-separates id bytes d poller p s =
      let next : Dtc × Bool → Dtc × Store Float =
        unless_consumed env decode obd_time id bytes poller p s in
      (
        (λ other.
            ap next (not_accepted id bytes d other)
            ∙ ap (λ s'. (d, s')) (not_polled id bytes poller p s other)),
        (λ e.
            ap next (accepted_lem id bytes d e)
            ∙ sym (ap (λ out. (out.0, s)) (accepted_lem id bytes d e))),
        (λ e. ap (λ out. (next out).0) (refused_lem id bytes d e)),
      )
