-- ===== src/Link/Echo.antt =====
-- src/hal/usb/usb_seq_echo.cpp: a command's number comes back in its replies; and `extractCmdByte` of
-- src/hal/usb/usb_dispatch.cpp, after which that number is looked for. A line is a text without NUL.
pub mod RoundTrip
use canshift_firmware.Prelude.{
  ℕ, zero, suc, ◌+◌, ◌-◌, Bool, true, false, not, ◌&&◌, ◌||◌, Option, none, some, List, [], ◌∷◌,
  ◌++◌, if◌then◌else◌, ltb, leb, ◌==◌, length, take, codes, is_digit, decimal, read_digits,
  strip_prefix, after_key,
}

abbrev pub cmd_key : List ℕ
cmd_key = codes "\"cmd\":"

abbrev pub seq_key : List ℕ
seq_key = codes ",\"seq\":"

abbrev pub status_prefix : List ℕ
status_prefix = codes "{\"status\":"

-- `kMaxTaggedLine`
abbrev pub max_tagged_line : ℕ
max_tagged_line = 256

-- `kSeqSuffixRoom`
abbrev pub seq_suffix_room : ℕ
seq_suffix_room = length (codes ",\"seq\":4294967295}")

-- `Seq`: its value where it is present.
abbrev pub Seq : Type 0
Seq = Option ℕ

abbrev is_space : ℕ → Bool
is_space c = (c == 32) || (leb 9 c && leb c 13)

pub skip_spaces : List ℕ → List ℕ
skip_spaces [] = []
skip_spaces (c ∷ cs) = if is_space c then skip_spaces cs else c ∷ cs

-- `strtol` from the sign on: whether it is negative, the number, and the text after it.
pub read_long : Bool → List ℕ → Option (Bool × ℕ × List ℕ)
read_long negative [] = none
read_long negative (c ∷ cs) =
    let (n, rest) = read_digits 0 (c ∷ cs) in if is_digit c then some (negative, n, rest) else none

pub strtol_sign : List ℕ → Option (Bool × ℕ × List ℕ)
unfolding read_long
strtol_sign [] = none
strtol_sign (c ∷ cs) =
    if c == b'-'
    then read_long true cs
    else if c == b'+'
    then read_long false cs
    else read_long false (c ∷ cs)

unfoldable pub strtol : List ℕ → Option (Bool × ℕ × List ℕ)
unfolding strtol_sign skip_spaces
strtol text = strtol_sign (skip_spaces text)

-- The command's code, and the text after it.
unfoldable pub extract_cmd_byte : List ℕ → ℕ × Option (List ℕ)
unfolding strtol after_key
extract_cmd_byte line = elim (after_key cmd_key line) [
  | none ↦ (0, none)
  | some text ↦ elim (strtol text) [
    | none ↦ (0, none)
    | some (negative, n, rest) ↦
        if (negative && ltb 0 n) || ltb 255 n then (0, none) else (n, some rest)
  ]
]

-- The digits that follow the key.
unfoldable pub parse_seq : List ℕ → Seq
parse_seq [] = none
parse_seq (c ∷ cs) =
    let (n, rest) = read_digits 0 (c ∷ cs) in
    if is_digit c then (if ltb 4294967295 n then none else some n) else none

unfoldable pub parse_after_cmd : Option (List ℕ) → Seq
unfolding parse_seq
parse_after_cmd none = none
parse_after_cmd (some text) = elim (strip_prefix seq_key text) [
  | none ↦ none
  | some digits ↦ parse_seq digits
]

unfoldable pub closing : Seq → List ℕ
closing none = codes "}"
closing (some n) = seq_key ++ (decimal n ++ codes "}")

-- `none` where it returns 0.
unfoldable pub close_reply : Seq → ℕ → Option (List ℕ)
unfolding closing
close_reply seq cap = let text = closing seq in if leb cap (length text) then none else some text

abbrev pub ends_with : ℕ → List ℕ → Bool
ends_with c [] = false
ends_with c (d ∷ []) = d == c
ends_with c (d ∷ e ∷ text) = ends_with c (e ∷ text)

unfoldable pub is_status_object : List ℕ → Bool
is_status_object line = elim (strip_prefix status_prefix line) [
  | none ↦ false
  | some rest ↦ ltb (length status_prefix) (length line) && ends_with b'}' line
]

unfoldable pub tag : List ℕ → Seq → ℕ → Option (List ℕ)
unfolding is_status_object close_reply
tag line none cap = none
tag line (some n) cap =
    let body = take (length line - 1) line in
    if not (is_status_object line) || leb cap (length line - 1)
    then none
    else elim (close_reply (some n) (cap - (length line - 1))) [
      | none ↦ none
      | some tail ↦ some (body ++ tail)
    ]

-- `sendTagged` of usb_comm.cpp; `allocated` is the answer of the heap for a line that does not fit the
-- buffer on the stack.
unfoldable pub send_tagged : Bool → List ℕ → Seq → Option (List ℕ)
unfolding tag
send_tagged allocated line seq =
    let cap = length line + seq_suffix_room in
    if leb cap max_tagged_line
    then tag line seq max_tagged_line
    else if allocated
    then tag line seq cap
    else none
