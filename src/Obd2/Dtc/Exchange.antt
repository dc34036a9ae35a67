-- ===== src/Obd2/Dtc/Exchange.antt =====
-- A whole exchange of src/can/obd2_dtc.cpp: begun by a command, fed with frames by the CAN task,
-- and reported by `tickObdDtc`, with no call of one interleaved with a call of another.
use canshift_firmware.Prelude.{
  ℕ, ◌≤◌, ◌<◌, ◌≡◌, ◌≢◌, refl, Bool, true, false, Option, none, some, List, [], ◌∷◌, if◌then◌else◌,
  take, drop, length, length-append, length-take, length-drop, take_prefix, arith, add32, before32,
  All,
}
use canshift_firmware.Obd2.Response.{byte}
use canshift_firmware.Obd2.Response.Local.{code_count, extract_mode03_dtcs_lem}
use canshift_firmware.Obd2.Dtc.{
  Pending, Dtc, Outcome, Send, Reply, obd_no_response, ok_reply, dtc_bytes_reply, max_dtc_bytes,
  command_timeout_ms, handle_obd, tick_obd_dtc, on_rx_frame, rx_accepts,
}

-- A frame as `CanRxRoute::deliver` passes it on.
pub record Frame : Type 0 where
  pub id : ℕ
  pub bytes : List ℕ
  pub len : ℕ

pub record IsFrame (f : Frame) : Type 0 where
  pub held : f.len ≤ length f.bytes
  pub short : f.len < 256
  pub count_byte : byte f.bytes 2 < 256

abbrev pub accepts : Pending → Frame → Bool
accepts kind f = rx_accepts kind f.id (some f.bytes) f.len

-- The frames in the order of their arrival.
unfoldable pub feed : List Frame → Dtc → Dtc
feed [] d = d
feed (f ∷ fs) d = feed fs (on_rx_frame f.id (some f.bytes) f.len d).0

abbrev pub note : Pending → Option Frame → Frame → Option Frame
note kind seen f = if accepts kind f then some f else seen

-- The last positive response among the frames, if there is one.
unfoldable pub last_response : Pending → Option Frame → List Frame → Option Frame
last_response kind seen [] = seen
last_response kind seen (f ∷ fs) = last_response kind (note kind seen f) fs

abbrev pub codes : Frame → List ℕ
codes f = take (code_count f.bytes f.len max_dtc_bytes) (drop 3 f.bytes)

-- What an exchange that has seen `seen` holds.
abbrev Holds : Pending → Option Frame → Dtc → Type 0
Holds kind none d = d.responded ≡ false
Holds Pending.read (some f) d =
    (d.responded ≡ true)
    × (take d.dtc_byte_count d.dtc_bytes ≡ codes f)
    × (d.dtc_byte_count ≡ length (codes f))
Holds kind (some f) d = d.responded ≡ true

record Running (kind : Pending) (deadline : ℕ) (seen : Option Frame) (d : Dtc) : Type 0 where
  pending : d.pending ≡ kind
  due : d.deadline_ms ≡ deadline
  size : length d.dtc_bytes ≡ max_dtc_bytes
  holds : Holds kind seen d

length-codes : (f : Frame) → IsFrame f → length (codes f) ≡ code_count f.bytes f.len max_dtc_bytes
length-codes f v = ground (
  arith,
  length-take (code_count f.bytes f.len max_dtc_bytes) (drop 3 f.bytes),
  length-drop 3 f.bytes,
)

on_rx_frame-Running :
    (kind : Pending) (deadline : ℕ) (seen : Option Frame) (f : Frame) (d : Dtc)
    → IsFrame f
    → Running kind deadline seen d
    → Running kind deadline (note kind seen f) (on_rx_frame f.id (some f.bytes) f.len d).0
unfolding on_rx_frame
on_rx_frame-Running kind deadline seen f d v r = ground (
  arith,
  length-codes f v,
  extract_mode03_dtcs_lem f.bytes d.dtc_bytes f.len max_dtc_bytes,
  take_prefix (code_count f.bytes f.len max_dtc_bytes) (codes f)
      (drop (code_count f.bytes f.len max_dtc_bytes) d.dtc_bytes),
  length-append (codes f) (drop (code_count f.bytes f.len max_dtc_bytes) d.dtc_bytes),
  length-drop (code_count f.bytes f.len max_dtc_bytes) d.dtc_bytes,
)

feed-Running :
    (kind : Pending) (deadline : ℕ) (seen : Option Frame) (fs : List Frame) (d : Dtc)
    → All IsFrame fs
    → Running kind deadline seen d
    → Running kind deadline (last_response kind seen fs) (feed fs d)
unfolding feed last_response
feed-Running kind deadline seen [] d v r = r
feed-Running kind deadline seen (f ∷ fs) d v r =
    feed-Running kind deadline (note kind seen f) fs (on_rx_frame f.id (some f.bytes) f.len d).0 v.1
      (on_rx_frame-Running kind deadline seen f d v.0 r)

-- What the host is told at time `now` of an exchange due at `deadline`.
abbrev pub report : Pending → ℕ → ℕ → Option Frame → List Reply
report kind now deadline none = if before32 now deadline then [] else obd_no_response ∷ []
report Pending.read now deadline (some f) = dtc_bytes_reply (codes f) ∷ []
report kind now deadline (some f) = ok_reply ∷ []

tick-Running :
    (kind : Pending) (deadline now : ℕ) (seen : Option Frame) (local : Outcome) (d : Dtc)
    → kind ≢ Pending.idle
    → Running kind deadline seen d
    → (tick_obd_dtc now local d).1 ≡ report kind now deadline seen
unfolding tick_obd_dtc
tick-Running Pending.idle deadline now seen local d active r = absurd (active refl)
tick-Running Pending.read deadline now none local d active r = ground arith
tick-Running Pending.clear deadline now none local d active r = ground arith
tick-Running Pending.clear deadline now (some f) local d active r = ground arith
tick-Running Pending.read deadline now (some f) local d active r =
    ground (arith, take_prefix d.dtc_byte_count (codes f) (drop d.dtc_byte_count local.bytes))

handle_obd-Running :
    (kind : Pending) (start : ℕ) (send : Send) (scratch : List ℕ) (d : Dtc)
    → length d.dtc_bytes ≡ max_dtc_bytes
    → d.pending ≡ Pending.idle
    → (handle_obd kind start send scratch d).1 ≡ []
    → Running kind (add32 start command_timeout_ms) none (handle_obd kind start send scratch d).0
unfolding handle_obd
handle_obd-Running kind start send scratch d size quiet begun = ground arith

-- A trouble-code command that begins an exchange on an idle client, followed by any frames and by
-- one tick: the tick writes the codes of the last positive response when the command was a read,
-- an acknowledgement when it was a clear and a positive response came, "no response" when none
-- came and 1500 ms have passed, and nothing before that.
pub exchange_report :
    (kind : Pending) (start now : ℕ) (send : Send) (scratch : List ℕ) (fs : List Frame)
    (local : Outcome) (d : Dtc)
    → kind ≢ Pending.idle
    → length d.dtc_bytes ≡ max_dtc_bytes
    → d.pending ≡ Pending.idle
    → (handle_obd kind start send scratch d).1 ≡ []
    → All IsFrame fs
    → (tick_obd_dtc now local (feed fs (handle_obd kind start send scratch d).0)).1
      ≡ report kind now (add32 start command_timeout_ms) (last_response kind none fs)
exchange_report kind start now send scratch fs local d active size quiet begun v =
    tick-Running kind (add32 start command_timeout_ms) now (last_response kind none fs) local
      (feed fs (handle_obd kind start send scratch d).0) active
      (feed-Running kind (add32 start command_timeout_ms) none fs
        (handle_obd kind start send scratch d).0 v
        (handle_obd-Running kind start send scratch d size quiet begun))
