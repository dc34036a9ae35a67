-- ===== src/Can/Install.antt =====
-- `installOnCore0` of src/can/can_driver_install.cpp: a task on the other core starts the driver, the caller
-- waits for it up to a time limit, and the one that comes last frees what they share. Both run one move at
-- a time, in any order; allocation and the creation of the task have succeeded.
pub mod Invariant
pub mod Sound
use canshift_firmware.Prelude.{
  ℕ, ◌+◌, Bool, true, false, not, ◌||◌, Option, none, some, List, [], ◌∷◌, if◌then◌else◌,
}

-- Where `twaiInitTaskFn` is: before the result is stored, before the exchange, and by what it gave.
pub data InitTask : Type 0 where
  running announcing last gives ended : InitTask

-- Where `awaitInit` is; it returns the task's result, or `none` for the time-out.
pub data Caller : Type 0 where
  waiting expired wants_give collecting : Caller
  returned : Option Bool → Caller

-- `InitContext`, whether it is there still, how often it was freed, whether anything touched it since, and
-- `s_twaiInstalled`.
pub record Handshake : Type 0 where
  pub task : InitTask
  pub caller : Caller
  pub done : Bool
  pub result : Bool
  pub peer_finished : Bool
  pub alive : Bool
  pub frees : ℕ
  pub fault : Bool
  pub installed : Bool

unfoldable pub begin : Handshake
begin = record {
  task = running;
  caller = waiting;
  done = false;
  result = false;
  peer_finished = false;
  alive = true;
  frees = 0;
  fault = false;
  installed = false;
}

-- An access to the shared context.
unfoldable pub touch : Handshake → Handshake
touch h = record h { fault = h.fault || not h.alive }

-- `freeInitContext`
unfoldable pub free_init_context : Handshake → Handshake
unfolding touch
free_init_context h = record (touch h) { alive = false; frees = h.frees + 1 }

unfoldable pub task_at : InitTask → Bool → Handshake → Handshake
unfolding touch free_init_context
task_at running started h = record (touch h) { result = started; task = announcing }
task_at announcing started h = record (touch h) {
  peer_finished = true;
  task = if h.peer_finished then last else gives;
}
task_at last started h = record (free_init_context h) {
  installed = h.installed || h.result;
  task = ended;
}
task_at gives started h = record (touch h) { done = true; task = ended }
task_at ended started h = h

-- One step of `twaiInitTaskFn`, with the outcome of `installAndStartOnThisCore`.
unfoldable pub task_move : Bool → Handshake → Handshake
unfolding task_at
task_move started h = task_at h.task started h

unfoldable pub caller_at : Caller → Bool → Handshake → Handshake
unfolding touch free_init_context
caller_at waiting timed_out h =
    if h.done
    then record (touch h) { done = false; caller = collecting }
    else if timed_out
    then record (touch h) { caller = expired }
    else h
caller_at expired timed_out h = record (touch h) {
  peer_finished = true;
  caller = if h.peer_finished then wants_give else returned none;
}
caller_at wants_give timed_out h =
    if h.done then record (touch h) { done = false; caller = collecting } else h
caller_at collecting timed_out h = record (free_init_context h) {
  caller = returned (some h.result);
  installed = h.installed || h.result;
}
caller_at (returned r) timed_out h = h

-- One step of `awaitInit` and then of `CanManager::initHardware`; whether the time limit has passed.
unfoldable pub caller_move : Bool → Handshake → Handshake
unfolding caller_at
caller_move timed_out h = caller_at h.caller timed_out h

pub data Move : Type 0 where
  by_task by_caller : Bool → Move

unfoldable pub run : List Move → Handshake → Handshake
unfolding task_move caller_move
run [] h = h
run (by_task started ∷ ms) h = run ms (task_move started h)
run (by_caller timed_out ∷ ms) h = run ms (caller_move timed_out h)
