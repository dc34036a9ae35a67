-- ===== src/Tests/Datalog.antt =====
-- A card whose `write` takes three bytes at most, and is full from the 90th call on.
use canshift_firmware.Prelude.{
  ◌+◌, ◌*◌, ◌≢◌, refl, true, false, none, some, List, [], ◌∷◌, if◌then◌else◌, ltb, arith,
}
use canshift_firmware.Datalog.File.{
  Platform, File, Written, wrote, write_error, Errno, Created, append,
}
use canshift_firmware.Datalog.Append.{IsAppended, append-IsAppended}
use canshift_firmware.Datalog.Writer.{Writer, Session, Inputs, tick, open_session, close_session}
use canshift_firmware.Datalog.Inv.{IsWriter}
use canshift_firmware.Datalog.Session.{tick-IsWriter}
use canshift_firmware.Datalog.Recording.{Event, sample, flush, run, IsLog, close_session-IsLog}

abbrev card : Platform
card = record {
  write = λ n. if ltb n 90 then wrote 3 else write_error Errno.no_space;
  make_dir = λ n. none;
  create = λ n session. Created.created;
  fsync = λ n. none;
  close = λ n. none;
  mount = λ n. true;
  put_next = λ n. true;
  millis = λ n. 1000 + 10 * n;
  header = λ n. some (68 ∷ 76 ∷ n ∷ []);
  end_record = λ elapsed lost. 255 ∷ lost ∷ [];
}

abbrev empty_file : File
empty_file = record { is_open = true; content = 7 ∷ []; calls = 0 }

append-IsAppended_example :
    IsAppended (1 ∷ 2 ∷ 3 ∷ 4 ∷ []) empty_file (append card (1 ∷ 2 ∷ 3 ∷ 4 ∷ []) empty_file)
append-IsAppended_example = append-IsAppended card (1 ∷ 2 ∷ 3 ∷ 4 ∷ []) empty_file

abbrev ready : Writer
ready = record {
  file = record { is_open = false; content = []; calls = 0 };
  session = Session.idle;
  recording = false;
  start_ms = 0;
  ring = [];
  dropped = 0;
  dropped_at_open = 0;
  last_sync_ms = 0;
  last_mount_try_ms = 0;
  mount_tried = false;
  absent_reported = false;
  mounted = true;
  next_session = none;
  errors = [];
}

abbrev live : Inputs
live = record { bus_silent = false; silent_seconds = 0; workshop = false }

tick-IsWriter_example : IsWriter (tick card live ready)
tick-IsWriter_example = tick-IsWriter card live ready (record { recording = refl; state = refl })

abbrev opening : Writer
opening = record ready { session = Session.opened }

abbrev events : List Event
events = sample (1 ∷ 2 ∷ 3 ∷ 4 ∷ []) ∷ flush 1200 ∷ sample (5 ∷ []) ∷ []

idle_ne_halted : Session.idle ≢ Session.halted
idle_ne_halted e = ground arith

close_session-IsLog_example :
    IsLog card
      (1 ∷ 2 ∷ 3 ∷ 4 ∷ 5 ∷ [])
      (close_session card (record (run card events (open_session card opening)).0 {
        session = Session.idle;
      })).file.content
unfolding open_session canshift_firmware.Datalog.File.open_file append
    canshift_firmware.Datalog.File.append_loop canshift_firmware.Datalog.Writer.begin_recording run
    canshift_firmware.Datalog.Writer.enqueue canshift_firmware.Datalog.Writer.flush_recording
    canshift_firmware.Datalog.Writer.store_next_session canshift_firmware.Datalog.Writer.drain
    canshift_firmware.Datalog.Writer.drain_loop close_session canshift_firmware.Datalog.File.finish
close_session-IsLog_example = close_session-IsLog card events opening refl refl idle_ne_halted
