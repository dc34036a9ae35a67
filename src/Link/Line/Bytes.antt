-- ===== src/Link/Line/Bytes.antt =====
-- What the receiver of src/hal/usb/usb_comm.cpp does with bytes, by the line that is unfinished.
use canshift_firmware.Prelude.{
  ℕ, ◌≤◌, ◌<◌, ◌≡◌, ◌≢◌, ◌⊎◌, inl, inr, refl, ap, ap₂, sym, ◌∙◌, true, false, List, [], ◌∷◌, ◌++◌,
  append-nil, append_assoc, if◌then◌else◌, ltb, ◌==◌, length, length-append, map, sub32, arith,
  Bool-cases, All, subst,
}
use canshift_firmware.Link.Line.{
  rx_buf_size, line_timeout_ms, newline, Event, dispatched, too_long, Receiver, drop_abandoned_line,
  accept_serial_byte, accept_bytes, Poll, receive, run,
}

-- The bytes that the host wrote.
abbrev pub payload : List (ℕ × ℕ) → List ℕ
payload bytes = map (λ b. b.1) bytes

abbrev pub written : List Poll → List ℕ
written [] = []
written (p ∷ ps) = payload p.bytes ++ written ps

-- A line as the host writes it, and what it should lead to.
abbrev pub IsLine : List ℕ → Type 0
IsLine l = All (λ c. c ≢ newline) l

abbrev pub unlines : List (List ℕ) → List ℕ
unlines [] = []
unlines (l ∷ ls) = l ++ (newline ∷ unlines ls)

abbrev pub answer : List ℕ → List Event
answer [] = []
answer (c ∷ l) = if ltb (length (c ∷ l)) rx_buf_size then dispatched (c ∷ l) ∷ [] else too_long ∷ []

abbrev pub answers : List (List ℕ) → List Event
answers [] = []
answers (l ∷ ls) = answer l ++ answers ls

-- An unfinished line leads to nothing but the report of its length.
abbrev pub rest_answer : List ℕ → List Event
rest_answer l = if ltb (length l) rx_buf_size then [] else too_long ∷ []

-- The receiver has taken `l` of the line that it is in.
abbrev pub Holds : List ℕ → Receiver → Type 0
Holds l r =
    ((r.draining ≡ false) × (r.buffer ≡ l) × (length l < rx_buf_size))
    ⊎ ((r.draining ≡ true) × (r.buffer ≡ []) × (rx_buf_size ≤ length l))

byte_lem :
    (now c : ℕ) (l : List ℕ) (r : Receiver)
    → c ≢ newline
    → Holds l r
    → Holds (l ++ (c ∷ [])) (accept_serial_byte now c r).0
      × (rest_answer l ++ (accept_serial_byte now c r).1 ≡ rest_answer (l ++ (c ∷ [])))
unfolding accept_serial_byte
byte_lem now c l r ne h = ground (arith, length-append l (c ∷ []))

newline_lem :
    (now c : ℕ) (l : List ℕ) (r : Receiver)
    → (c == newline) ≡ true
    → Holds l r
    → Holds [] (accept_serial_byte now c r).0
      × (rest_answer l ++ (accept_serial_byte now c r).1 ≡ answer l)
unfolding accept_serial_byte
newline_lem now c [] r e h = ground arith
newline_lem now c (d ∷ l) r e h = ground arith

-- What the bytes `cs` add to an unfinished line `l`: the answers to the lines that they end, and the
-- line that is unfinished then.
unfoldable pub closed : List ℕ → List ℕ → List Event
closed l [] = []
closed l (c ∷ cs) = if c == newline then answer l ++ closed [] cs else closed (l ++ (c ∷ [])) cs

unfoldable pub unfinished : List ℕ → List ℕ → List ℕ
unfinished l [] = l
unfinished l (c ∷ cs) = if c == newline then unfinished [] cs else unfinished (l ++ (c ∷ [])) cs

abbrev pub Closes : List ℕ → List ℕ → Receiver × List Event → Type 0
Closes l cs out =
    Holds (unfinished l cs) out.0
    × (rest_answer l ++ out.1 ≡ closed l cs ++ rest_answer (unfinished l cs))

pub accept_bytes-Closes :
    (bytes : List (ℕ × ℕ)) (l : List ℕ) (r : Receiver)
    → Holds l r
    → Closes l (payload bytes) (accept_bytes bytes r)
unfolding accept_bytes closed unfinished
accept_bytes-Closes [] l r h = (h, append-nil (rest_answer l))
accept_bytes-Closes ((now, c) ∷ bytes) l r h =
    let (r', events) = accept_serial_byte now c r in
    let later = (accept_bytes bytes r').1 in
    let regroup = sym (append_assoc (rest_answer l) events later) in
    elim (Bool-cases (c == newline)) [
      | inl e ↦
          let (h', q) = newline_lem now c l r e h in
          let (h'', q') = accept_bytes-Closes bytes [] r' h' in
          rw (e, closed, unfinished)
            (
              h'',
              regroup
                  ∙ ap (λ t. t ++ later) q
                  ∙ ap (λ t. answer l ++ t) q'
                  ∙ sym (append_assoc (answer l) _ _),
            )
      | inr e ↦
          let (h', q) = byte_lem now c l r (λ n. absurd (ground arith)) h in
          let (h'', q') = accept_bytes-Closes bytes (l ++ (c ∷ [])) r' h' in
          rw (e, closed, unfinished) (h'', regroup ∙ ap (λ t. t ++ later) q ∙ q')
    ]

pub closed-append :
    (l cs ds : List ℕ)
    → (closed l (cs ++ ds) ≡ closed l cs ++ closed (unfinished l cs) ds)
      × (unfinished l (cs ++ ds) ≡ unfinished (unfinished l cs) ds)
unfolding closed unfinished
closed-append l [] ds = (refl, refl)
closed-append l (c ∷ cs) ds = elim (Bool-cases (c == newline)) [
  | inl e ↦
      let (p, q) = closed-append [] cs ds in
      rw (e, closed, unfinished) (ap (λ t. answer l ++ t) p ∙ sym (append_assoc (answer l) _ _), q)
  | inr e ↦ rw (e, closed, unfinished) (closed-append (l ++ (c ∷ [])) cs ds)
]

-- The time at which the last byte was read.
abbrev pub last_time : ℕ → List (ℕ × ℕ) → ℕ
last_time t [] = t
last_time t (b ∷ bytes) = last_time b.0 bytes

-- At each tick, the last byte of a line that is unfinished was read 2000 ms ago at most.
abbrev pub IsPrompt : List ℕ → ℕ → List Poll → Type 0
IsPrompt l t [] = Unit
IsPrompt l t (p ∷ ps) =
    ((l ≡ []) ⊎ (sub32 p.now t ≤ line_timeout_ms))
    × IsPrompt (unfinished l (payload p.bytes)) (last_time t p.bytes) ps

byte_time : (now c : ℕ) (r : Receiver) → (accept_serial_byte now c r).0.last_cmd_ms ≡ now
unfolding accept_serial_byte
byte_time now c r = ground arith

accept_bytes_time :
    (bytes : List (ℕ × ℕ)) (r : Receiver)
    → (accept_bytes bytes r).0.last_cmd_ms ≡ last_time r.last_cmd_ms bytes
unfolding accept_bytes
accept_bytes_time [] r = refl
accept_bytes_time ((now, c) ∷ bytes) r =
    accept_bytes_time bytes (accept_serial_byte now c r).0
    ∙ ap (λ t. last_time t bytes) (byte_time now c r)

pub prompt_lem :
    (now : ℕ) (l : List ℕ) (r : Receiver)
    → Holds l r
    → (l ≡ []) ⊎ (sub32 now r.last_cmd_ms ≤ line_timeout_ms)
    → drop_abandoned_line now r ≡ r
unfolding drop_abandoned_line
prompt_lem now l r (inr (d, b, n)) p = ground (arith, ap length b)
prompt_lem now l r (inl (d, b, n)) (inl e) = ground (arith, ap length (b ∙ e))
prompt_lem now l r (inl (d, b, n)) (inr near) = ground arith

pub run-Closes :
    (ps : List Poll) (l : List ℕ) (r : Receiver)
    → Holds l r
    → IsPrompt l r.last_cmd_ms ps
    → Closes l (written ps) (run ps r)
unfolding run receive unfinished closed
run-Closes [] l r h v = (h, append-nil (rest_answer l))
run-Closes (p ∷ ps) l r h (v, w) =
    let bytes = payload p.bytes in
    let same = prompt_lem p.now l r h v in
    let (h', q) =
      subst (λ r. Closes l bytes (accept_bytes p.bytes r)) (sym same)
        (accept_bytes-Closes p.bytes l r h) in
    let (r', events) = receive p r in
    let on_time =
      accept_bytes_time p.bytes (drop_abandoned_line p.now r)
      ∙ ap (λ r. last_time r.last_cmd_ms p.bytes) same in
    let l' = unfinished l bytes in
    let (h'', q') = run-Closes ps l' r' h' (subst (λ t. IsPrompt l' t ps) (sym on_time) w) in
    let (e, f) = closed-append l bytes (written ps) in
    let later = (run ps r').1 in
    (
      subst (λ t. Holds t (run ps r').0) (sym f) h'',
      sym (append_assoc (rest_answer l) events later)
          ∙ ap (λ t. t ++ later) q
          ∙ append_assoc (closed l bytes) (rest_answer l') later
          ∙ ap (λ t. closed l bytes ++ t) q'
          ∙ sym (append_assoc (closed l bytes) _ _)
          ∙ ap₂ (λ t u. t ++ rest_answer u) (sym e) (sym f),
    )
