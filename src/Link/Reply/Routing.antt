-- ===== src/Link/Reply/Routing.antt =====
-- Who gets a command's replies, and with which number: src/hal/usb.
use canshift_firmware.Prelude.{
  ◌&&◌, ℕ, ◌≡◌, refl, ap, ap₂, ◌∙◌, Bool, true, false, Option, none, some, List, [], ◌∷◌, ◌++◌,
  if◌then◌else◌, ◌==◌, arith,
}
use canshift_firmware.Link.Echo.{Seq, extract_cmd_byte, parse_after_cmd, send_tagged}
use canshift_firmware.Link.Reply.{
  Route, broadcast, Output, Scopes, Answers, serial_of, socket_of, current_route, active, close_seq,
  close_route, open_route, serial_sink, socket_sink, route_line, send_line, open_seq, begin_command,
  end_command,
}

-- No command is being handled.
pub record IsIdle (s : Scopes) : Type 0 where
  pub route_task : s.route_task ≡ none
  pub seq_task : s.seq_task ≡ none

-- A line that a task sends.
pub record Send : Type 0 where
  pub task : ℕ
  pub line : List ℕ
  pub answers : Answers

pub send_all : List Send → Scopes → List Output
send_all [] s = []
send_all (m ∷ ms) s = send_line m.answers m.task m.line s ++ send_all ms s

abbrev pub tagged_or : Option (List ℕ) → List ℕ → List ℕ
tagged_or none line = line
tagged_or (some tagged) line = tagged

-- What should come of a line of the task that handles a command with a number, and of another one.
abbrev pub tagged_or_plain : Answers → List ℕ → Seq → List ℕ
tagged_or_plain a line seq = tagged_or (send_tagged a.allocated line seq) line

abbrev pub sent_to : Route → Answers → Bool → List ℕ → List Output
sent_to route a has_socket line =
    (if serial_of route then serial_sink a line else [])
    ++ (if socket_of route && has_socket then Output.to_socket line ∷ [] else [])

abbrev pub expected : Route → ℕ → Seq → Bool → List Send → List Output
expected source task seq has_socket [] = []
expected source task seq has_socket (m ∷ ms) =
    (if task == m.task
      then sent_to source m.answers has_socket (tagged_or_plain m.answers m.line seq)
      else sent_to broadcast m.answers has_socket m.line)
    ++ expected source task seq has_socket ms

begun : Route → ℕ → Seq → Scopes → Scopes
begun source task seq s = open_seq seq task (open_route source task s)

route_lem :
    (source : Route) (task t : ℕ) (seq : Seq) (s : Scopes)
    → current_route (begun source task seq s) t ≡ (if task == t then source else broadcast)
unfolding begun open_seq open_route current_route
route_lem source task t none s = refl
route_lem source task t (some n) s = refl

active_lem :
    (source : Route) (task t : ℕ) (seq : Seq) (s : Scopes)
    → IsIdle s
    → active (begun source task seq s) t ≡ (if task == t then seq else none)
unfolding begun open_seq open_route active
active_lem source task t none s v = ground arith
active_lem source task t (some n) s v = refl

socket_lem :
    (source : Route) (task : ℕ) (seq : Seq) (s : Scopes)
    → (begun source task seq s).has_socket ≡ s.has_socket
unfolding begun open_seq open_route
socket_lem source task none s = refl
socket_lem source task (some n) s = refl

untagged : (a : Answers) (line : List ℕ) → send_tagged a.allocated line none ≡ none
unfolding send_tagged
untagged a line = ground arith

both_lem :
    (a b : Bool) (line : List ℕ)
    → ◌≡◌ {A = List Output}
        (if a then (if b then Output.to_socket line ∷ [] else []) else [])
        (if a && b then Output.to_socket line ∷ [] else [])
both_lem true b line = refl
both_lem false b line = refl

route_line_lem :
    (a : Answers) (t : ℕ) (line : List ℕ) (s : Scopes)
    → route_line a t line s ≡ sent_to (current_route s t) a s.has_socket line
unfolding route_line socket_sink
route_line_lem a t line s =
    ap (λ o. (if serial_of (current_route s t) then serial_sink a line else []) ++ o)
      (both_lem (socket_of (current_route s t)) s.has_socket line)

sent_lem :
    (a : Answers) (t : ℕ) (line : List ℕ) (s : Scopes) (o : Option (List ℕ))
    → ◌≡◌ {A = List Output}
        (elim o [ some tagged ↦ route_line a t tagged s | none ↦ route_line a t line s ])
        (sent_to (current_route s t) a s.has_socket (tagged_or o line))
sent_lem a t line s none = route_line_lem a t line s
sent_lem a t line s (some tagged) = route_line_lem a t tagged s

send_line_lem :
    (a : Answers) (t : ℕ) (line : List ℕ) (s : Scopes)
    → send_line a t line s
      ≡ sent_to (current_route s t) a s.has_socket (tagged_or_plain a line (active s t))
unfolding send_line
send_line_lem a t line s = sent_lem a t line s (send_tagged a.allocated line (active s t))

choose_lem :
    (e : Bool) (source : Route) (seq : Seq) (a : Answers) (line : List ℕ) (has_socket : Bool)
    → sent_to
        (if e then source else broadcast)
        a
        has_socket
        (tagged_or_plain a line (if e then seq else none))
      ≡ (if e
          then sent_to source a has_socket (tagged_or_plain a line seq)
          else sent_to broadcast a has_socket line)
choose_lem true source seq a line has_socket = refl
choose_lem false source seq a line has_socket =
    ap (λ o. sent_to broadcast a has_socket (tagged_or o line)) (untagged a line)

expected_lem :
    (source : Route) (task : ℕ) (seq : Seq) (s : Scopes) (ms : List Send)
    → IsIdle s
    → send_all ms (begun source task seq s) ≡ expected source task seq s.has_socket ms
unfolding send_all
expected_lem source task seq s [] v = refl
expected_lem source task seq s (m ∷ ms) v =
    let b = begun source task seq s in
    ap₂ (λ o p. o ++ p)
      (send_line_lem m.answers m.task m.line b
        ∙ ap
            (λ r.
              sent_to r m.answers b.has_socket (tagged_or_plain m.answers m.line (active b m.task)))
            (route_lem source task m.task seq s)
        ∙ ap₂
            (λ h q.
              sent_to (if task == m.task then source else broadcast) m.answers h
                (tagged_or_plain m.answers m.line q))
            (socket_lem source task seq s) (active_lem source task m.task seq s v)
        ∙ choose_lem (task == m.task) source seq m.answers m.line s.has_socket)
      (expected_lem source task seq s ms v)

begun_lem :
    (source : Route) (task : ℕ) (line : List ℕ) (s : Scopes)
    → begin_command source task line s
      ≡ begun source task (parse_after_cmd (extract_cmd_byte line).1) s
unfolding begin_command begun
begun_lem source task line s = refl

end_lem :
    (source : Route) (task : ℕ) (seq : Seq) (s : Scopes)
    → IsIdle s
    → IsIdle (close_route (close_seq seq (begun source task seq s)))
unfolding begun open_seq open_route close_seq close_route
end_lem source task none s v = record { route_task = refl; seq_task = v.seq_task }
end_lem source task (some n) s v = record { route_task = refl; seq_task = refl }

-- While no other command is handled, the lines sent during a command, by whatever tasks in whatever order,
-- are routed so: one of the task that handles it goes only to where the command came from, a status object
-- with the command's number, and one of another task goes to the port and to the socket as it is. After the
-- command no task has a scope.
pub command_routes :
    (source : Route) (task : ℕ) (line : List ℕ) (s : Scopes) (ms : List Send)
    → IsIdle s
    → let s' = begin_command source task line s in
      (send_all ms s'
        ≡ expected source task (parse_after_cmd (extract_cmd_byte line).1) s.has_socket ms)
      × IsIdle (end_command line s')
unfolding end_command
command_routes source task line s ms v =
    let seq = parse_after_cmd (extract_cmd_byte line).1 in
    rw (begun_lem source task line s)
      (expected_lem source task seq s ms v, end_lem source task seq s v)
