-- ===== src/Link/Line/Overlong.antt =====
-- What the receiver of src/hal/usb/usb_comm.cpp does after a line that was too long.
use canshift_firmware.Prelude.{
  ℕ, ◌≤◌, ◌≡◌, inl, inr, refl, ap, ap₂, sym, ◌∙◌, false, List, [], ◌∷◌, ◌++◌, length, length-append,
  arith, subst,
}
use canshift_firmware.Link.Line.{
  rx_buf_size, newline, too_long, Receiver, drop_abandoned_line, accept_bytes, Poll, receive,
}
use canshift_firmware.Link.Line.Bytes.{
  payload, IsLine, answer, rest_answer, Holds, closed, unfinished, accept_bytes-Closes,
  closed-append,
}
use canshift_firmware.Link.Line.Lines.{text_lem}

drained_lem : (now : ℕ) (r : Receiver) → r.buffer ≡ [] → drop_abandoned_line now r ≡ r
unfolding drop_abandoned_line
drained_lem now r b = ground (arith, ap length b)

payload_end :
    (line : List (ℕ × ℕ)) (t c : ℕ) → payload (line ++ ((t, c) ∷ [])) ≡ payload line ++ (c ∷ [])
payload_end [] t c = refl
payload_end (b ∷ line) t c = ap (λ l. b.1 ∷ l) (payload_end line t c)

rest_long : (l : List ℕ) → rx_buf_size ≤ length l → rest_answer l ≡ too_long ∷ []
rest_long l n = ground arith

answer_long : (l : List ℕ) → rx_buf_size ≤ length l → answer l ≡ too_long ∷ []
answer_long [] n = absurd (omega arith)
answer_long (c ∷ l) n = ground arith

long_empty : (l : List ℕ) (r : Receiver) → rx_buf_size ≤ length l → Holds l r → r.buffer ≡ []
long_empty l r n (inl (d, b, m)) = absurd (omega arith)
long_empty l r n (inr (d, b, m)) = b

-- The first part of a long line leaves the receiver draining.
long_lem :
    (r : Receiver) (long : List (ℕ × ℕ)) (now : ℕ)
    → r.draining ≡ false
    → r.buffer ≡ []
    → IsLine (payload long)
    → rx_buf_size ≤ length (payload long)
    → let out = receive (record { now = now; bytes = long }) r in
      (out.1 ≡ too_long ∷ []) × (out.0.buffer ≡ []) × Holds (payload long) out.0
unfolding receive
long_lem r long now d b v n =
    let l = payload long in
    let start : Holds [] r = inl (d, b, omega arith) in
    let (none_closed, all) = text_lem l [] v in
    let (h, q) = accept_bytes-Closes long [] r start in
    let out = accept_bytes long r in
    let held : Holds l out.0 = subst (λ t. Holds t out.0) all h in
    rw (drained_lem now r b) (
      q ∙ ap₂ (λ t u. t ++ rest_answer u) none_closed all ∙ rest_long l n,
      long_empty l out.0 n held,
      held,
    )

next_lem :
    (r : Receiver) (l : List ℕ) (line : List (ℕ × ℕ)) (t : ℕ)
    → Holds l r
    → rx_buf_size ≤ length l
    → IsLine (payload line)
    → (accept_bytes (line ++ ((t, newline) ∷ [])) r).1 ≡ []
unfolding closed unfinished
next_lem r l line t h n w =
    let text = payload line in
    let whole = l ++ text in
    let (none_closed, all) = text_lem text l w in
    let (e, f) = closed-append l text (newline ∷ []) in
    let (h', q) = accept_bytes-Closes (line ++ ((t, newline) ∷ [])) l r h in
    let events = (accept_bytes (line ++ ((t, newline) ∷ [])) r).1 in
    let said : too_long ∷ events ≡ too_long ∷ [] =
      ap (λ a. a ++ events) (sym (rest_long l n))
      ∙ q
      ∙ ap (λ c. closed l c ++ rest_answer (unfinished l c)) (payload_end line t newline)
      ∙ ap₂ (λ a u. a ++ rest_answer u) e f
      ∙ ap₂ (λ a u. (a ++ closed u (newline ∷ [])) ++ rest_answer (unfinished u (newline ∷ [])))
          none_closed all
      ∙ ap (λ a. (a ++ []) ++ []) (answer_long whole (omega (arith, length-append l text))) in
    cc said

-- A receiver that drains an overlong line goes on draining after any pause: a line of which 16640 bytes
-- have come is reported, and when the rest never comes, the next line is lost, however late it comes.
pub overlong_swallows :
    (r : Receiver) (long line : List (ℕ × ℕ)) (now later : ℕ)
    → r.draining ≡ false
    → r.buffer ≡ []
    → IsLine (payload long)
    → rx_buf_size ≤ length (payload long)
    → IsLine (payload line)
    → (t : ℕ)
    → let first : Poll = record { now = now; bytes = long } in
      let second : Poll = record { now = later; bytes = line ++ ((t, newline) ∷ []) } in
      ((receive first r).1 ≡ too_long ∷ []) × ((receive second (receive first r).0).1 ≡ [])
unfolding receive drop_abandoned_line
overlong_swallows r long line now later d b v n w t =
    let (e, empty, h) = long_lem r long now d b v n in
    (
      e,
      rw (drained_lem later (receive (record { now = now; bytes = long }) r).0 empty)
          (next_lem _ (payload long) line t h n w),
    )
