-- ===== src/Link/Echo/RoundTrip.antt =====
-- A command's number comes back in its status replies: src/hal/usb/usb_seq_echo.cpp.
use canshift_firmware.Prelude.{
  ℕ, suc, ◌+◌, ◌-◌, ◌≤◌, ◌<◌, ◌≡◌, refl, ap, sym, ◌∙◌, true, false, none, some, List, [], ◌∷◌, ◌++◌,
  if◌then◌else◌, ltb, leb, leb→le, length, length-append, take, arith, inl, inr, Bool-cases,
  Option-cases, codes, is_digit, decimal, read_digits, strip_prefix, after_key, EndsDigits,
  read_digits-decimal, decimal_head, length-decimal,
}
use canshift_firmware.Link.Echo.{
  cmd_key, seq_key, status_prefix, max_tagged_line, seq_suffix_room, Seq, skip_spaces, read_long,
  strtol_sign, strtol, extract_cmd_byte, parse_seq, parse_after_cmd, closing, close_reply,
  ends_with, is_status_object, tag, send_tagged,
}

-- A command as a host writes it.
abbrev pub command : ℕ → ℕ → List ℕ → List ℕ
command code n more = codes "{" ++ (cmd_key ++ (decimal code ++ (seq_key ++ (decimal n ++ more))))

strtol_digit :
    (c : ℕ) (text : List ℕ)
    → is_digit c ≡ true
    → strtol (c ∷ text) ≡ some (false, (read_digits 0 (c ∷ text)).0, (read_digits 0 (c ∷ text)).1)
unfolding strtol skip_spaces strtol_sign read_long
strtol_digit c text h = ground arith

strtol_lem :
    (n : ℕ) (rest : List ℕ) → EndsDigits rest → strtol (decimal n ++ rest) ≡ some (false, n, rest)
strtol_lem n rest h =
    let (c, cs, e, d) = decimal_head n in
    ap (λ t. strtol (t ++ rest)) e
    ∙ strtol_digit c (cs ++ rest) d
    ∙ ap (λ t. some (false, (read_digits 0 (t ++ rest)).0, (read_digits 0 (t ++ rest)).1)) (sym e)
    ∙ ap (λ r. some (false, r.0, r.1)) (read_digits-decimal n rest h)

extract_lem :
    (code : ℕ) (rest : List ℕ)
    → code < 256
    → EndsDigits rest
    → extract_cmd_byte (codes "{" ++ (cmd_key ++ (decimal code ++ rest))) ≡ (code, some rest)
unfolding extract_cmd_byte after_key
extract_lem code rest lt h = rw (extract_cmd_byte, strtol_lem code rest h) (ground arith)

parse_digit :
    (c : ℕ) (text : List ℕ)
    → is_digit c ≡ true
    → parse_seq (c ∷ text) ≡ (
        if ltb 4294967295 (read_digits 0 (c ∷ text)).0
        then none
        else some (read_digits 0 (c ∷ text)).0)
unfolding parse_seq
parse_digit c text h = rw h refl

parse_lem :
    (n : ℕ) (rest : List ℕ)
    → n < 4294967296
    → EndsDigits rest
    → parse_after_cmd (some (seq_key ++ (decimal n ++ rest))) ≡ some n
unfolding parse_after_cmd
parse_lem n rest lt h =
    let (c, cs, e, d) = decimal_head n in
    let checked = λ (m : ℕ). if◌then◌else◌ {A = Seq} (ltb 4294967295 m) none (some m) in
    ap (λ t. parse_seq (t ++ rest)) e
    ∙ parse_digit c (cs ++ rest) d
    ∙ ap (λ t. checked (read_digits 0 (t ++ rest)).0) (sym e)
    ∙ ap (λ r. checked r.0) (read_digits-decimal n rest h)
    ∙ (ground arith)

ends_lem :
    (c : ℕ) (line : List ℕ)
    → ends_with c line ≡ true
    → (take (length line - 1) line ++ (c ∷ []) ≡ line) × (1 ≤ length line)
ends_lem c [] h = absurd (ground arith)
ends_lem c (d ∷ []) h = ground arith
ends_lem c (d ∷ e ∷ text) h =
    let (p, n) = ends_lem c (e ∷ text) h in
    let q : suc (suc (length text)) - 1 ≡ suc (length (e ∷ text) - 1) = omega arith in
    (ap (λ k. take k (d ∷ e ∷ text) ++ (c ∷ [])) q ∙ ap (λ t. d ∷ t) p, omega arith)

closing_lem : (n : ℕ) → n < 4294967296 → length (closing (some n)) ≤ seq_suffix_room
unfolding closing
closing_lem n h = omega (arith, length-append (decimal n) (codes "}"), length-decimal n h)

-- A status object is tagged where there is room for the longest number.
tag_lem :
    (line : List ℕ) (n cap : ℕ)
    → is_status_object line ≡ true
    → n < 4294967296
    → length line + seq_suffix_room ≤ cap
    → tag line (some n) cap ≡ some (take (length line - 1) line ++ closing (some n))
unfolding tag close_reply
tag_lem line n cap status h room = ground (arith, closing_lem n h)

status_lem : (line : List ℕ) → is_status_object line ≡ true → ends_with b'}' line ≡ true
unfolding is_status_object
status_lem line h = elim (Option-cases (strip_prefix status_prefix line)) [
  | inl e ↦ absurd (ground arith)
  | inr (rest, e) ↦ ground arith
]

sent_lem :
    (line : List ℕ) (n : ℕ)
    → is_status_object line ≡ true
    → n < 4294967296
    → send_tagged true line (some n) ≡ some (take (length line - 1) line ++ closing (some n))
unfolding send_tagged
sent_lem line n status h = elim (Bool-cases (leb (length line + seq_suffix_room) max_tagged_line)) [
  | inl e ↦ rw (e, send_tagged) (tag_lem line n max_tagged_line status h (leb→le _ _ e))
  | inr e ↦
      rw (e, send_tagged) (tag_lem line n (length line + seq_suffix_room) status h (omega arith))
]

read_closing : (n : ℕ) → n < 4294967296 → parse_after_cmd (some (closing (some n))) ≡ some n
unfolding closing
read_closing n h = parse_lem n (codes "}") h refl

-- A command with a number below 2 ^ 32 is read as its code and its number; a status object sent under that
-- number, where the heap gives a buffer when the line needs one, goes out as the same object with the number
-- as its last field, and that field reads back as the number.
pub reply_carries_seq :
    (code n : ℕ) (more reply : List ℕ)
    → code < 256
    → n < 4294967296
    → EndsDigits more
    → is_status_object reply ≡ true
    → let read = extract_cmd_byte (command code n more) in
      (read.0 ≡ code)
      × (parse_after_cmd read.1 ≡ some n)
      × (body : List ℕ) × (body ++ codes "}" ≡ reply)
      × (send_tagged true reply (parse_after_cmd read.1) ≡ some (body ++ closing (some n)))
      × (parse_after_cmd (some (closing (some n))) ≡ some n)
reply_carries_seq code n more reply lt lt' h status =
    let e = extract_lem code (seq_key ++ (decimal n ++ more)) lt refl in
    let p = ap (λ r. parse_after_cmd r.1) e ∙ parse_lem n more lt' h in
    let body = take (length reply - 1) reply in
    (
      ap (λ r. r.0) e,
      p,
      body,
      (ends_lem b'}' reply (status_lem reply status)).0,
      ap (send_tagged true reply) p ∙ sent_lem reply n status lt',
      read_closing n lt',
    )
