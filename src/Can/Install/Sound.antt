-- ===== src/Can/Install/Sound.antt =====
-- The handshake of src/can/can_driver_install.cpp frees its context once, after the last access.
use canshift_firmware.Prelude.{
  ℕ, ◌-◌, ◌≤◌, ◌≡◌, refl, sym, subst, ◌∙◌, Bool, false, none, some, List, [], ◌∷◌, arith,
}
use canshift_firmware.Can.Install.{
  InitTask, running, announcing, last, gives, ended, Caller, waiting, expired, wants_give,
  collecting, returned, Handshake, begin, task_at, task_move, caller_at, caller_move, Move, by_task,
  by_caller, run,
}
use canshift_firmware.Can.Install.Invariant.{
  At, IsSound, task_lem, caller_lem, run-IsSound, begin-IsSound,
}

-- The caller's answer: a time-out or the task's result.
abbrev pub IsAnswer : Bool → Caller → Type 0
IsAnswer result (returned none) = Unit
IsAnswer result (returned (some r)) = r ≡ result
IsAnswer result _ = ⊥

abbrev pub IsOver : Handshake → Type 0
IsOver h = (h.task ≡ ended) × (h.frees ≡ 1) × (h.installed ≡ h.result) × IsAnswer h.result h.caller

safe_lem :
    (t : InitTask) (c : Caller) (h : Handshake) → At t c h → (h.fault ≡ false) × (h.frees ≤ 1)
safe_lem running waiting h v = ground arith
safe_lem running expired h v = ground arith
safe_lem running (returned none) h v = ground arith
safe_lem announcing waiting h v = ground arith
safe_lem announcing expired h v = ground arith
safe_lem announcing (returned none) h v = ground arith
safe_lem last (returned none) h v = ground arith
safe_lem gives waiting h v = ground arith
safe_lem gives expired h v = ground arith
safe_lem gives wants_give h v = ground arith
safe_lem ended waiting h v = ground arith
safe_lem ended expired h v = ground arith
safe_lem ended wants_give h v = ground arith
safe_lem ended collecting h v = ground arith
safe_lem ended (returned none) h v = ground arith
safe_lem ended (returned (some r)) h v = ground arith
safe_lem _ _ h v = elim v [ ]

-- The moves that are left to each side, to the caller once the task has ended.
task_left : InitTask → ℕ
task_left running = 3
task_left announcing = 2
task_left last = 1
task_left gives = 1
task_left ended = 0

caller_left : Caller → ℕ
caller_left expired = 3
caller_left waiting = 2
caller_left wants_give = 2
caller_left collecting = 1
caller_left (returned r) = 0

task_left_lem :
    (t : InitTask) (started : Bool) (h : Handshake)
    → h.task ≡ t
    → task_left (task_at t started h).task ≤ task_left t - 1
unfolding task_at task_left
task_left_lem running started h p = omega arith
task_left_lem announcing started h p = ground arith
task_left_lem last started h p = omega arith
task_left_lem gives started h p = omega arith
task_left_lem ended started h p = rw p (omega arith)

caller_left_lem :
    (c : Caller) (timed_out : Bool) (h : Handshake)
    → h.caller ≡ c
    → At ended c h
    → (caller_left (caller_at c timed_out h).caller ≤ caller_left c - 1)
      × ((caller_at c timed_out h).task ≡ h.task)
unfolding caller_at caller_left
caller_left_lem waiting timed_out h p v = ground arith
caller_left_lem expired timed_out h p v = ground arith
caller_left_lem wants_give timed_out h p v = ground arith
caller_left_lem collecting timed_out h p v = ground arith
caller_left_lem (returned r) timed_out h p v = rw p (omega arith, refl)

over_lem :
    (t : InitTask) (c : Caller) (h : Handshake)
    → h.task ≡ t
    → h.caller ≡ c
    → task_left t ≤ 0
    → caller_left c ≤ 0
    → At t c h
    → IsOver h
unfolding task_left caller_left
over_lem ended (returned none) h p q n m v = (p, v.1, v.3, subst (IsAnswer h.result) (sym q) tt)
over_lem ended (returned (some r)) h p q n m v =
    (p, v.0.1, v.0.3, subst (IsAnswer h.result) (sym q) v.1)
over_lem _ _ h p q n m v = absurd (ground arith)

-- Three moves of the task and three of the caller, whatever the start of the driver and the clock say.
abbrev pub finish : Bool → Bool → List Move
finish started timed_out =
    by_task started
    ∷ by_task started
    ∷ by_task started
    ∷ by_caller timed_out
    ∷ by_caller timed_out
    ∷ by_caller timed_out
    ∷ []

task_step :
    (started : Bool) (h : Handshake)
    → IsSound h
    → IsSound (task_move started h) × (task_left (task_move started h).task ≤ task_left h.task - 1)
unfolding task_move
task_step started h v =
    (task_lem h.task h.caller started h refl refl v, task_left_lem h.task started h refl)

caller_step :
    (timed_out : Bool) (h : Handshake)
    → h.task ≡ ended
    → IsSound h
    → IsSound (caller_move timed_out h)
      × (caller_left (caller_move timed_out h).caller ≤ caller_left h.caller - 1)
      × ((caller_move timed_out h).task ≡ ended)
unfolding caller_move
caller_step timed_out h e v =
    let (less, same) =
      caller_left_lem h.caller timed_out h refl (subst (λ t. At t h.caller h) e v) in
    (caller_lem h.caller h.task timed_out h refl refl v, less, same ∙ e)

ended_lem : (t : InitTask) → task_left t ≤ 0 → t ≡ ended
unfolding task_left
ended_lem running n = absurd (omega arith)
ended_lem announcing n = absurd (omega arith)
ended_lem last n = absurd (omega arith)
ended_lem gives n = absurd (omega arith)
ended_lem ended n = refl

ended_left : (t : InitTask) → t ≡ ended → task_left t ≤ 0
unfolding task_left
ended_left t e = rw e (omega arith)

left_bound : (t : InitTask) (c : Caller) → (task_left t ≤ 3) × (caller_left c ≤ 3)
unfolding task_left caller_left
left_bound t c = ground arith

finish_lem :
    (started timed_out : Bool) (h : Handshake)
    → IsSound h
    → IsOver (run (finish started timed_out) h)
unfolding run
finish_lem started timed_out h v =
    let (v1, l1) = task_step started h v in
    let (v2, l2) = task_step started _ v1 in
    let (v3, l3) = task_step started _ v2 in
    let h3 = task_move started (task_move started (task_move started h)) in
    let (b, _) = left_bound h.task h.caller in
    let (_, c) = left_bound h3.task h3.caller in
    let e = ended_lem h3.task (omega arith) in
    let (v4, l4, e4) = caller_step timed_out h3 e v3 in
    let (v5, l5, e5) = caller_step timed_out _ e4 v4 in
    let (v6, l6, e6) = caller_step timed_out _ e5 v5 in
    let h6 = caller_move timed_out (caller_move timed_out (caller_move timed_out h3)) in
    over_lem h6.task h6.caller h6 refl refl (ended_left h6.task e6) (omega arith) v6

-- However the moves of the task and of the caller alternate and whether or not the caller gives up: the
-- shared context is never touched after it was freed and is freed at most once. After three more moves of
-- the task and three of the caller at most, both have ended, the context was freed once, the driver counts as
-- installed exactly when its start succeeded, and the caller has returned that outcome or the time-out.
pub run-finish :
    (ms : List Move) (started timed_out : Bool)
    → let h = run ms begin in
      (h.fault ≡ false) × (h.frees ≤ 1) × IsOver (run (finish started timed_out) h)
run-finish ms started timed_out =
    let h = run ms begin in
    let v = run-IsSound ms begin begin-IsSound in
    let (f, n) = safe_lem h.task h.caller h v in (f, n, finish_lem started timed_out h v)
