-- ===== src/Datalog/File.antt =====
-- src/runtime/datalog/datalog_file.cpp.
use canshift_firmware.Prelude.{
  ℕ, zero, suc, ◌+◌, Bool, true, false, Option, none, some, List, [], ◌∷◌, ◌++◌, if◌then◌else◌,
  length, take, drop, u16,
}

abbrev pub session_probe_limit : ℕ
session_probe_limit = 16

pub data Result : Type 0 where
  ok full failed : Result

-- `errno` is ENOSPC, or anything else.
pub data Errno : Type 0 where
  no_space other_error : Errno

-- The count that `write` returns, or -1.
pub data Written : Type 0 where
  wrote : ℕ → Written
  write_error : Errno → Written

-- What `createExclusive` returns: a descriptor, or -1 with EEXIST or another `errno`.
pub data Created : Type 0 where
  created exists : Created
  refused : Errno → Created

-- The outside world, asked for the n-th time; `none` is success. `header` is the preamble and header
-- of a session, `none` when they do not fit; `end_record` its last record.
pub record Platform : Type 0 where
  pub write : ℕ → Written
  pub make_dir : ℕ → Option Errno
  pub create : ℕ → ℕ → Created
  pub fsync : ℕ → Option Errno
  pub close : ℕ → Option Errno
  pub mount : ℕ → Bool
  pub put_next : ℕ → Bool
  pub millis : ℕ → ℕ
  pub header : ℕ → Option (List ℕ)
  pub end_record : ℕ → ℕ → List ℕ

-- `s_fd` as whether it is a descriptor, the bytes of its file, and the calls made so far.
pub record File : Type 0 where
  pub is_open : Bool
  pub content : List ℕ
  pub calls : ℕ

abbrev pub called : File → File
called f = record f { calls = f.calls + 1 }

unfoldable pub from_errno : Errno → Result
from_errno no_space = full
from_errno other_error = failed

unfoldable pub result_of : Option Errno → Result
unfolding from_errno
result_of none = ok
result_of (some e) = from_errno e

abbrev pub is_ok : Result → Bool
is_ok ok = true
is_ok _ = false

module _ (p : Platform) where
  -- The loop of `append` on the bytes left: every round but the last writes one byte at least, so that
  -- as many rounds as bytes are enough.
  unfoldable pub append_loop : ℕ → List ℕ → File → File × Result
  unfolding from_errno
  append_loop rounds [] f = (f, ok)
  append_loop zero (b ∷ bytes) f = (f, failed)
  append_loop (suc rounds) (b ∷ bytes) f = elim (p.write f.calls) [
    | write_error e ↦ (called f, from_errno e)
    | wrote n ↦ elim n [
      | zero ↦ (called f, full)
      | suc k ↦
          append_loop rounds (drop k bytes)
            (record f { content = f.content ++ b ∷ take k bytes; calls = f.calls + 1 })
    ]
  ]

  unfoldable pub append : List ℕ → File → File × Result
  append bytes f = append_loop (length bytes) bytes f

  unfoldable pub sync : File → File × Result
  unfolding result_of
  sync f = (called f, result_of (p.fsync f.calls))

  -- `finish` from the call of `close` on.
  unfoldable pub close_file : File × Result → File × Result
  unfolding result_of
  close_file (f, synced) = (
    record f { is_open = false; calls = f.calls + 1 },
    if is_ok synced then result_of (p.close f.calls) else synced,
  )

  unfoldable pub finish : ℕ → ℕ → File → File × Result
  unfolding sync close_file
  finish t_ms dropped f =
      let ended = append (p.end_record t_ms dropped) f in
      if is_ok ended.1 then close_file (sync ended.0) else close_file ended

  unfoldable pub abandon : File → File
  abandon f = if f.is_open then record f { is_open = false; calls = f.calls + 1 } else f

  -- The probes left, and the session number, which is a `uint16_t`.
  unfoldable pub create_fresh : ℕ → ℕ → File → File × ℕ × Created
  create_fresh zero session f = (f, session, exists)
  create_fresh (suc probes) session f = elim (p.create f.calls session) [
    | created ↦ (record f { is_open = true; content = []; calls = f.calls + 1 }, session, created)
    | exists ↦ create_fresh probes (u16 (session + 1)) (called f)
    | refused e ↦ (record f { is_open = false; calls = f.calls + 1 }, session, refused e)
  ]

  unfoldable pub write_header : ℕ → File → File × Result
  write_header session f = elim (p.header session) [
    | none ↦ (f, failed)
    | some bytes ↦ append bytes f
  ]

  -- The result stands behind the session number that `open` leaves.
  unfoldable pub open_file : ℕ → File → File × ℕ × Result
  unfolding create_fresh write_header from_errno
  open_file session f =
      let (f', number, made) = create_fresh session_probe_limit session (called f) in
      let (f'', result) = write_header number f' in
      elim (p.make_dir f.calls) [
        | some e ↦ (called f, session, from_errno e)
        | none ↦ elim made [
          | created ↦ (f'', number, result)
          | exists ↦ (record f' { is_open = false }, number, failed)
          | refused e ↦ (f', number, from_errno e)
        ]
      ]
