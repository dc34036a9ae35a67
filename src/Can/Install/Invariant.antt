-- ===== src/Can/Install/Invariant.antt =====
-- Where the task and the caller of src/can/can_driver_install.cpp are, and what holds of their context then.
use canshift_firmware.Prelude.{◌≡◌, refl, Bool, true, false, none, some, List, [], ◌∷◌, arith}
use canshift_firmware.Can.Install.{
  InitTask, running, announcing, last, gives, ended, Caller, waiting, expired, wants_give,
  collecting, returned, Handshake, begin, task_at, task_move, caller_at, caller_move, Move, by_task,
  by_caller, run,
}

-- The context is there, and nobody has freed or touched it amiss.
abbrev pub IsOpen : Bool → Bool → Handshake → Type 0
IsOpen done peer_finished h =
    (h.done ≡ done)
    × (h.peer_finished ≡ peer_finished)
    × (h.alive ≡ true)
    × (h.frees ≡ 0)
    × (h.fault ≡ false)
    × (h.installed ≡ false)

abbrev pub IsClosed : Handshake → Type 0
IsClosed h = (h.alive ≡ false) × (h.frees ≡ 1) × (h.fault ≡ false) × (h.installed ≡ h.result)

-- What holds where the task and the caller are.
abbrev pub At : InitTask → Caller → Handshake → Type 0
At running waiting h = IsOpen false false h
At running expired h = IsOpen false false h
At running (returned none) h = IsOpen false true h
At announcing waiting h = IsOpen false false h
At announcing expired h = IsOpen false false h
At announcing (returned none) h = IsOpen false true h
At last (returned none) h = IsOpen false true h
At gives waiting h = IsOpen false true h
At gives expired h = IsOpen false true h
At gives wants_give h = IsOpen false true h
At ended waiting h = IsOpen true true h
At ended expired h = IsOpen true true h
At ended wants_give h = IsOpen true true h
At ended collecting h = IsOpen false true h
At ended (returned none) h = IsClosed h
At ended (returned (some r)) h = IsClosed h × (r ≡ h.result)
At _ _ h = ⊥

abbrev pub IsSound : Handshake → Type 0
IsSound h = At h.task h.caller h

pub task_lem :
    (t : InitTask) (c : Caller) (started : Bool) (h : Handshake)
    → h.task ≡ t
    → h.caller ≡ c
    → At t c h
    → IsSound (task_at t started h)
unfolding task_at
task_lem running waiting started h p q v = ground arith
task_lem running expired started h p q v = ground arith
task_lem running (returned none) started h p q v = ground arith
task_lem announcing waiting started h p q v = ground arith
task_lem announcing expired started h p q v = ground arith
task_lem announcing (returned none) started h p q v = ground arith
task_lem last (returned none) started h p q v = ground arith
task_lem gives waiting started h p q v = ground arith
task_lem gives expired started h p q v = ground arith
task_lem gives wants_give started h p q v = ground arith
task_lem ended waiting started h p q v = ground arith
task_lem ended expired started h p q v = ground arith
task_lem ended wants_give started h p q v = ground arith
task_lem ended collecting started h p q v = ground arith
task_lem ended (returned none) started h p q v = ground arith
task_lem ended (returned (some r)) started h p q v = ground arith
task_lem _ _ started h p q v = elim v [ ]

pub caller_lem :
    (c : Caller) (t : InitTask) (timed_out : Bool) (h : Handshake)
    → h.task ≡ t
    → h.caller ≡ c
    → At t c h
    → IsSound (caller_at c timed_out h)
unfolding caller_at
caller_lem waiting running timed_out h p q v = ground arith
caller_lem expired running timed_out h p q v = ground arith
caller_lem (returned none) running timed_out h p q v = ground arith
caller_lem waiting announcing timed_out h p q v = ground arith
caller_lem expired announcing timed_out h p q v = ground arith
caller_lem (returned none) announcing timed_out h p q v = ground arith
caller_lem (returned none) last timed_out h p q v = ground arith
caller_lem waiting gives timed_out h p q v = ground arith
caller_lem expired gives timed_out h p q v = ground arith
caller_lem wants_give gives timed_out h p q v = ground arith
caller_lem waiting ended timed_out h p q v = ground arith
caller_lem expired ended timed_out h p q v = ground arith
caller_lem wants_give ended timed_out h p q v = ground arith
caller_lem collecting ended timed_out h p q v = ground arith
caller_lem (returned none) ended timed_out h p q v = ground arith
caller_lem (returned (some r)) ended timed_out h p q v = ground arith
caller_lem _ _ timed_out h p q v = elim v [ ]

pub run-IsSound : (ms : List Move) (h : Handshake) → IsSound h → IsSound (run ms h)
unfolding run
run-IsSound [] h v = v
run-IsSound (by_task started ∷ ms) h v =
    run-IsSound ms (task_move started h) (task_lem h.task h.caller started h refl refl v)
run-IsSound (by_caller timed_out ∷ ms) h v =
    run-IsSound ms (caller_move timed_out h) (caller_lem h.caller h.task timed_out h refl refl v)

pub begin-IsSound : IsSound begin
unfolding begin
begin-IsSound = ground arith
