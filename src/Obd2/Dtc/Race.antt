-- ===== src/Obd2/Dtc/Race.antt =====
-- `Obd2Dtc::onRxFrame` runs on the CAN task and `takeOutcome`, `beginClear` on the USB task, on the
-- other core. Its steps are taken apart here: it loads the pending kind once, records the frame,
-- and stores `s_responded` last.
use canshift_firmware.Prelude.{ℕ, ◌≡◌, true, false, List, [], ◌∷◌, arith, before32}
use canshift_firmware.Obd2.Response.{Buffer}
use canshift_firmware.Obd2.Dtc.{
  Pending, Dtc, Outcome, Send, ok_reply, handle_obd, tick_obd_dtc, rx_accepts, rx_record,
  rx_publish,
}

-- The USB task's part: report the timeout, then begin the clear.
abbrev pub timeout_then_clear : ℕ → Outcome → Send → List ℕ → Dtc → Dtc
timeout_then_clear now local send scratch d =
    (handle_obd Pending.clear now send scratch (tick_obd_dtc now local d).0).0

-- A frame that `onRxFrame` took for the response to an unanswered read, before the read timed out
-- and a clear was begun, and whose record and last store come after: the next tick acknowledges the
-- clear, for every such frame, state and clear request that the bus takes.
pub late_read_acknowledges_clear :
    (id len now later : ℕ) (bytes : Buffer) (local : Outcome) (send : Send) (scratch : List ℕ)
    (d : Dtc)
    → d.pending ≡ Pending.read
    → d.responded ≡ false
    → rx_accepts d.pending id bytes len ≡ true
    → before32 now d.deadline_ms ≡ false
    → (handle_obd Pending.clear now send scratch (tick_obd_dtc now local d).0).1 ≡ []
    → (tick_obd_dtc later local (
        rx_publish (rx_record d.pending bytes len (timeout_then_clear now local send scratch d)))).1
      ≡ ok_reply ∷ []
unfolding tick_obd_dtc handle_obd rx_publish rx_record
late_read_acknowledges_clear id len now later bytes local send scratch d p r acc due sent =
    ground arith
