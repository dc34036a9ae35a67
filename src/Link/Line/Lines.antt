-- ===== src/Link/Line/Lines.antt =====
-- Which commands the receiver of src/hal/usb/usb_comm.cpp takes from the lines that a host writes.
use canshift_firmware.Prelude.{
  ℕ, ◌≡◌, inl, refl, ap, ap₂, sym, ◌∙◌, List, [], ◌∷◌, ◌++◌, append-nil, append_assoc, arith, All,
  ne→==,
}
use canshift_firmware.Link.Line.{newline, init, Poll, run}
use canshift_firmware.Link.Line.Bytes.{
  written, IsLine, unlines, answer, answers, rest_answer, Holds, closed, unfinished, closed-append,
  IsPrompt, run-Closes,
}

-- A line without its end.
pub text_lem : (l t : List ℕ) → IsLine l → (closed t l ≡ []) × (unfinished t l ≡ t ++ l)
unfolding closed unfinished
text_lem [] t v = (refl, sym (append-nil t))
text_lem (c ∷ l) t (n, v) =
    let (e, f) = text_lem l (t ++ (c ∷ [])) v in
    rw (ne→== c newline n, closed, unfinished) (e, f ∙ append_assoc t (c ∷ []) l)

line_lem :
    (l more : List ℕ)
    → IsLine l
    → (closed [] (l ++ (newline ∷ more)) ≡ answer l ++ closed [] more)
      × (unfinished [] (l ++ (newline ∷ more)) ≡ unfinished [] more)
unfolding closed unfinished
line_lem l more v =
    let (e, f) = closed-append [] l (newline ∷ more) in
    let (none_closed, all) = text_lem l [] v in
    (
      e ∙ ap₂ (λ t u. t ++ closed u (newline ∷ more)) none_closed all,
      f ∙ ap (λ u. unfinished u (newline ∷ more)) all,
    )

lines_lem :
    (ls : List (List ℕ)) (rest : List ℕ)
    → All IsLine ls
    → IsLine rest
    → (closed [] (unlines ls ++ rest) ≡ answers ls) × (unfinished [] (unlines ls ++ rest) ≡ rest)
lines_lem [] rest v w = text_lem rest [] w
lines_lem (l ∷ ls) rest (v, vs) w =
    let more = unlines ls ++ rest in
    let (e, f) = line_lem l more v in
    let (e', f') = lines_lem ls rest vs w in
    rw (append_assoc l (newline ∷ unlines ls) rest) (e ∙ ap (λ t. answer l ++ t) e', f ∙ f')

init-Holds : Holds [] init
unfolding init
init-Holds = inl (refl, refl, omega arith)

-- A host writes lines and perhaps the start of one more, cut up over the ticks in any way, and never pauses
-- for more than 2000 ms within a line. Then each line that is not empty and has less than 16640 bytes is
-- dispatched, each longer one is reported as too long, in the order in which they were written, and nothing
-- else happens but the report of the last one when it is too long already.
pub run-unlines :
    (ps : List Poll) (ls : List (List ℕ)) (rest : List ℕ)
    → All IsLine ls
    → IsLine rest
    → written ps ≡ unlines ls ++ rest
    → IsPrompt [] 0 ps
    → (run ps init).1 ≡ answers ls ++ rest_answer rest
unfolding init
run-unlines ps ls rest v w e prompt =
    let (h, q) = run-Closes ps [] init init-Holds prompt in
    let (c, u) = lines_lem ls rest v w in
    q ∙ ap₂ (λ t l. t ++ rest_answer l) (ap (closed []) e ∙ c) (ap (unfinished []) e ∙ u)
