-- ===== src/Ui/Dialog/Threads.antt =====
-- The messages `WM_WORKER_DONE` that a dialog has still to handle, and what a move of a thread does.
use hs_financial_services.Common.{
  ℕ, zero, suc, ◌+◌, ◌≡◌, refl, List, [], ◌∷◌, ◌++◌, map, arith, Option-cases, inl, inr,
}
use hs_financial_services.Ui.Worker.{Line, Desktop, Worker}
use hs_financial_services.Ui.Commands.Table.{to_cmd, run_number}
use hs_financial_services.Ui.Commands.Connection.{IsLinked, run_cmd-connected}
use hs_financial_services.Ui.Dialog.{Post, log_line, worker_done, Thread, starting, posting, Dialog}
use hs_financial_services.Ui.Dialog.Events.{posts_of, advance_thread, advance}

-- How many of the posts are `WM_WORKER_DONE`.
abbrev pub dones : List Post → ℕ
dones [] = 0
dones (log_line text ∷ posts) = dones posts
dones (worker_done ∷ posts) = suc (dones posts)

-- How many of them the threads have still to post.
abbrev pub pending : List Thread → ℕ
pending [] = 0
pending (starting n ∷ ts) = suc (pending ts)
pending (posting posts ∷ ts) = dones posts + pending ts

-- The commands whose end the dialog has not seen.
abbrev pub busy : Dialog → ℕ
busy s = pending s.threads + dones s.queue

pub dones-append : (posts more : List Post) → dones (posts ++ more) ≡ dones posts + dones more
dones-append [] more = omega arith
dones-append (log_line text ∷ posts) more = dones-append posts more
dones-append (worker_done ∷ posts) more = omega (arith, dones-append posts more)

pub dones-lines : (lines : List Line) → dones (map log_line lines) ≡ 0
dones-lines [] = refl
dones-lines (l ∷ lines) = dones-lines lines

pub dones-logged :
    (posts : List Post) (lines : List Line) → dones (posts ++ map log_line lines) ≡ dones posts
dones-logged posts lines = omega (arith, dones-append posts (map log_line lines), dones-lines lines)

dones-posts_of : (lines : List Line) → dones (posts_of lines) ≡ 1
dones-posts_of lines =
    omega (arith, dones-append (map log_line lines) (worker_done ∷ []), dones-lines lines)

pub advance-pending :
    (d : Desktop) (i : ℕ) (ts : List Thread) (w : Worker)
    → pending (advance d i ts w).0 + dones (advance d i ts w).1 ≡ pending ts
unfolding advance advance_thread
advance-pending d i [] w = refl
advance-pending d zero (starting n ∷ ts) w =
    omega (arith, dones-posts_of (run_number d n (record w { log = [] })).log)
advance-pending d zero (posting [] ∷ ts) w = omega arith
advance-pending d zero (posting (log_line text ∷ posts) ∷ ts) w = omega arith
advance-pending d zero (posting (worker_done ∷ posts) ∷ ts) w = omega arith
advance-pending d (suc i) (starting n ∷ ts) w = omega (arith, advance-pending d i ts w)
advance-pending d (suc i) (posting posts ∷ ts) w = omega (arith, advance-pending d i ts w)

run_number-IsLinked : (d : Desktop) (n : ℕ) (w : Worker) → IsLinked w → IsLinked (run_number d n w)
unfolding run_number
run_number-IsLinked d n w h = elim (Option-cases (to_cmd n)) [
  | inl e ↦ rw e h
  | inr (c, e) ↦ rw e ((run_cmd-connected d c w h).1)
]

pub advance-IsLinked :
    (d : Desktop) (i : ℕ) (ts : List Thread) (w : Worker)
    → IsLinked w
    → IsLinked (advance d i ts w).2
unfolding advance advance_thread
advance-IsLinked d i [] w h = h
advance-IsLinked d zero (starting n ∷ ts) w h = run_number-IsLinked d n (record w { log = [] }) h
advance-IsLinked d zero (posting [] ∷ ts) w h = h
advance-IsLinked d zero (posting (p ∷ posts) ∷ ts) w h = h
advance-IsLinked d (suc i) (t ∷ ts) w h = advance-IsLinked d i ts w h

-- With no command left to run a move changes nothing but the posts.
pub advance-idle :
    (d : Desktop) (i : ℕ) (ts : List Thread) (w : Worker)
    → pending ts ≡ 0
    → (advance d i ts w).2 ≡ w
unfolding advance advance_thread
advance-idle d i [] w h = refl
advance-idle d zero (starting n ∷ ts) w h = absurd (omega (arith, h))
advance-idle d zero (posting [] ∷ ts) w h = refl
advance-idle d zero (posting (p ∷ posts) ∷ ts) w h = refl
advance-idle d (suc i) (starting n ∷ ts) w h = absurd (omega (arith, h))
advance-idle d (suc i) (posting posts ∷ ts) w h = advance-idle d i ts w (omega (arith, h))
