-- ===== src/Datalog/Append.antt =====
-- What `append` of src/runtime/datalog/datalog_file.cpp leaves in a file, with writes that take any part
-- of the bytes they are given.
use canshift_firmware.Prelude.{
  ℕ, zero, suc, ◌+◌, ◌≡◌, ◌≤◌, ◌⊎◌, append-nil, append_assoc, length-drop, refl, ap, sym, ◌∙◌, true,
  false, List, [], ◌∷◌, ◌++◌, length, take, drop, arith, inl, inr,
}
use canshift_firmware.Datalog.File.{
  Written, wrote, write_error, Errno, no_space, other_error, from_errno, Result, full, Platform,
  File, called, is_ok, append, append_loop,
}

-- What `write` may return.
Written-cases :
    (x : Written)
    → ((e : Errno) × (x ≡ write_error e)) ⊎ ((x ≡ wrote 0) ⊎ ((k : ℕ) × (x ≡ wrote (suc k))))
Written-cases (write_error e) = inl (e, refl)
Written-cases (wrote zero) = inr (inl refl)
Written-cases (wrote (suc k)) = inr (inr (k, refl))

pub take-drop : (k : ℕ) (xs : List ℕ) → take k xs ++ drop k xs ≡ xs
take-drop zero xs = refl
take-drop (suc k) [] = refl
take-drop (suc k) (x ∷ xs) = ap (λ t. x ∷ t) (take-drop k xs)

-- The file after a write: open as before, with a start of the bytes behind what it held, and with all
-- of them when the result is `Ok`.
pub record IsAppended (bytes : List ℕ) (f : File) (out : File × Result) : Type 0 where
  pub kept : out.0.is_open ≡ f.is_open
  pub start :
      (pre : List ℕ) × (rest : List ℕ) × (pre ++ rest ≡ bytes) × (out.0.content ≡ f.content ++ pre)
  pub whole : is_ok out.1 ≡ true → out.0.content ≡ f.content ++ bytes

not_ok : (e : Errno) → is_ok (from_errno e) ≡ false
unfolding from_errno
not_ok no_space = refl
not_ok other_error = refl

module _ (p : Platform) where
  stopped-IsAppended :
      (bytes : List ℕ) (f : File) (result : Result)
      → is_ok result ≡ false
      → IsAppended bytes f (called f, result)
  stopped-IsAppended bytes f result e = record {
    kept = refl;
    start = ([], bytes, refl, sym (append-nil f.content));
    whole = λ ok. absurd (ground arith);
  }

  append_loop-IsAppended :
      (rounds : ℕ) (bytes : List ℕ) (f : File)
      → length bytes ≤ rounds
      → IsAppended bytes f (append_loop p rounds bytes f)
  unfolding append_loop
  append_loop-IsAppended rounds [] f fit = record {
    kept = refl;
    start = ([], [], refl, sym (append-nil f.content));
    whole = λ e. sym (append-nil f.content);
  }
  append_loop-IsAppended zero (b ∷ bytes) f fit = absurd (omega arith)
  append_loop-IsAppended (suc rounds) (b ∷ bytes) f fit = elim (Written-cases (p.write f.calls)) [
    | inl (e, same) ↦
        rw (same, append_loop) (stopped-IsAppended (b ∷ bytes) f (from_errno e) (not_ok e))
    | inr (inl same) ↦ rw (same, append_loop) (stopped-IsAppended (b ∷ bytes) f full refl)
    | inr (inr (k, same)) ↦
        let f' : File = record f { content = f.content ++ b ∷ take k bytes; calls = f.calls + 1 } in
        let ih =
          append_loop-IsAppended rounds (drop k bytes) f'
            (omega (arith, fit, length-drop k bytes)) in
        rw (same, append_loop)
          (record {
            kept = ih.kept;
            start =
                (let (pre, rest, joined, held) = ih.start in
                  (
                    b ∷ take k bytes ++ pre,
                    rest,
                    ap (λ t. b ∷ t)
                        (append_assoc (take k bytes) pre rest
                          ∙ (ap (λ t. take k bytes ++ t) joined ∙ take-drop k bytes)),
                    held ∙ append_assoc f.content (b ∷ take k bytes) pre,
                  ));
            whole = λ ok.
                ih.whole ok
                ∙ (append_assoc f.content (b ∷ take k bytes) (drop k bytes)
                    ∙ ap (λ t. f.content ++ b ∷ t) (take-drop k bytes));
          })
  ]

  -- `append`, whatever each `write` takes or answers: the file keeps what it held and gets a start of
  -- the bytes, and all of them when `append` returns `Ok`.
  pub append-IsAppended : (bytes : List ℕ) (f : File) → IsAppended bytes f (append p bytes f)
  unfolding append
  append-IsAppended bytes f = append_loop-IsAppended (length bytes) bytes f (omega arith)
