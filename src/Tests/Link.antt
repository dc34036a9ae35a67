-- ===== src/Tests/Link.antt =====
-- The host link on small inputs: commands in two pieces, a line that never ends, a reply with a number.
use canshift_firmware.Prelude.{
  ℕ, zero, suc, ◌+◌, ◌≤◌, ◌<◌, ◌≡◌, ◌≢◌, refl, ap, subst, sym, ◌∙◌, true, false, Option, none, some,
  List, [], ◌∷◌, ◌++◌, length, take, codes, All, arith, sub32, ◌⊎◌, inl, inr, EndsDigits,
}
use canshift_firmware.Link.Line.{newline, dispatched, too_long, Poll, receive, run, init}
use canshift_firmware.Link.Line.Bytes.{payload, IsLine}
use canshift_firmware.Link.Line.Lines.{run-unlines}
use canshift_firmware.Link.Line.Overlong.{overlong_swallows}
use canshift_firmware.Link.Echo.{
  extract_cmd_byte, parse_after_cmd, closing, send_tagged, is_status_object,
}
use canshift_firmware.Link.Echo.RoundTrip.{command, reply_carries_seq}
use canshift_firmware.Link.Reply.{
  uart, Scopes, broadcast, Route, Output, to_serial, to_socket, begin_command, end_command, Answers,
}
use canshift_firmware.Link.Reply.Routing.{IsIdle, Send, send_all, command_routes}

-- The line `hi` in two pieces.
abbrev pieces : List Poll
pieces =
    (record { now = 5; bytes = (5, 104) ∷ [] })
    ∷ (record { now = 900; bytes = (900, 105) ∷ (901, newline) ∷ (902, 33) ∷ [] })
    ∷ []

hi : IsLine (104 ∷ 105 ∷ [])
hi = (omega arith, (omega arith, tt))

run-unlines_example : (run pieces init).1 ≡ dispatched (104 ∷ 105 ∷ []) ∷ []
run-unlines_example =
    run-unlines pieces ((104 ∷ 105 ∷ []) ∷ []) (33 ∷ []) (hi, tt) (omega arith, tt) refl
      (inl refl, (inr (omega arith), tt))

-- `n` bytes that come at once.
burst : ℕ → List (ℕ × ℕ)
burst zero = []
burst (suc n) = (7, 120) ∷ burst n

length-burst : (n : ℕ) → length (payload (burst n)) ≡ n
unfolding burst
length-burst zero = refl
length-burst (suc n) = ap suc (length-burst n)

burst-IsLine : (n : ℕ) → IsLine (payload (burst n))
unfolding burst
burst-IsLine zero = tt
burst-IsLine (suc n) = (omega arith, burst-IsLine n)

overlong_swallows_example :
    let first : Poll = record { now = 7; bytes = burst 16640 } in
    let second : Poll = record {
      now = 60000;
      bytes = (60000, 104) ∷ (60001, 105) ∷ (60002, newline) ∷ [];
    } in
    ((receive first init).1 ≡ too_long ∷ []) × ((receive second (receive first init).0).1 ≡ [])
unfolding init
overlong_swallows_example =
    overlong_swallows init (burst 16640) ((60000, 104) ∷ (60001, 105) ∷ []) 7 60000 refl refl
      (burst-IsLine 16640) (omega (arith, length-burst 16640)) hi 60002

-- The command 7 with the number 42, and its reply.
abbrev ok : List ℕ
ok = codes "{\"status\":\"ok\"}"

ok_is_status : is_status_object ok ≡ true
unfolding is_status_object
ok_is_status = refl

reply_carries_seq_example :
    let read = extract_cmd_byte (command 7 42 (codes "}")) in
    (read.0 ≡ 7)
    × (parse_after_cmd read.1 ≡ some 42)
    × (body : List ℕ) × (body ++ codes "}" ≡ ok)
    × (send_tagged true ok (parse_after_cmd read.1) ≡ some (body ++ closing (some 42)))
    × (parse_after_cmd (some (closing (some 42))) ≡ some 42)
reply_carries_seq_example =
    reply_carries_seq 7 42 (codes "}") ok (omega arith) (omega arith) refl ok_is_status

abbrev quiet : Scopes
quiet = record {
  route_task = none;
  route = broadcast;
  seq_task = none;
  seq = none;
  has_socket = true;
}

abbrev replies : List Send
replies =
    record { task = 3; line = ok; answers = record { locked = true; allocated = true } }
    ∷ record { task = 4; line = codes "log"; answers = record { locked = true; allocated = true } }
    ∷ []

command_routes_example :
    let s' = begin_command uart 3 (command 7 42 (codes "}")) quiet in
    (send_all replies s'
      ≡ to_serial (codes "{\"status\":\"ok\",\"seq\":42}")
        ∷ to_serial (10 ∷ [])
        ∷ to_serial (codes "log")
        ∷ to_serial (10 ∷ [])
        ∷ to_socket (codes "log")
        ∷ [])
    × IsIdle (end_command (command 7 42 (codes "}")) s')
unfolding canshift_firmware.Link.Reply.serial_sink send_tagged parse_after_cmd extract_cmd_byte
    canshift_firmware.Prelude.decimal canshift_firmware.Prelude.read_digits
command_routes_example =
    command_routes uart 3 (command 7 42 (codes "}")) quiet replies
      (record { route_task = refl; seq_task = refl })
