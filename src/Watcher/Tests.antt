-- ===== src/Watcher/Tests.antt =====
-- A directory that is watched, and the end of the watcher.
use project_test_demo.Common.{
  ℕ, Option, none, ◌+◌, ◌⊎◌, true, false, some, [], ◌∷◌, ◌≡◌, ◌-◌, ap, refl, arith,
}
use project_test_demo.Watcher.{
  left, call_fails, initialized, listening, WatchInfo, change_event, running, ended, FsWatcher,
  find_info, set_info, erase_info, listen, listen_at, add_locked, add_directory, open_directory,
  stop_all, is_pending, process_event, complete, stop_event_loop, new_info, add, close, notify,
  packet, set_stopped, lock, finish, new_watcher, Reach, start, later,
}
use project_test_demo.Watcher.Calls.{failures, busy}
use project_test_demo.Watcher.Closing.{has_failed, Reach-IsAccounted, ended-calls}
use project_test_demo.Watcher.Lost.{here, overflow_ends_watch}

-- Directory 7 at the OVERLAPPED 40.
abbrev watched : FsWatcher
watched = (add_directory false (some 3) true true true true 7 40 (99 ∷ []) new_watcher).1

abbrev listened : WatchInfo
listened = record (new_info 7 40 (99 ∷ []) 3) { state = listening }

watched-found : find_info 40 watched.infos ≡ some listened
unfolding open_directory add_locked listen_at listen set_info find_info
watched-found = refl

watched-running : (watched.loop ≡ running) × (watched.closing ≡ false) × (watched.calls 40 ≡ 1)
unfolding open_directory add_locked listen_at listen find_info
watched-running = (refl, refl, refl)

change_heard :
    (process_event true 12 40 ((98 ∷ [], 1) ∷ []) (complete 40 watched)).events
    ≡ change_event 7 ((98 ∷ [], 1) ∷ []) ∷ []
unfolding open_directory add_locked listen_at listen set_info find_info process_event
change_heard = refl

Reach-watched : Reach watched
unfolding find_info
Reach-watched =
    later start
      (add false (some 3) true true true true 7 40 (99 ∷ []) refl (λ e. absurd (ground arith)) refl)

-- The destructor, the closing completion, and the packet.
abbrev closing : FsWatcher
closing = stop_event_loop watched

abbrev heard_last : FsWatcher
heard_last = process_event true 0 40 [] (complete 40 closing)

abbrev finished : FsWatcher
finished = record heard_last { loop = ended true; packets = heard_last.packets - 1; stopped = true }

heard_last-empty : (heard_last.infos ≡ []) × (heard_last.loop ≡ running) × (heard_last.packets ≡ 1)
unfolding open_directory add_locked listen_at listen set_info find_info process_event stop_all
    erase_info
heard_last-empty = (refl, refl, refl)

closing-calls : (closing.loop ≡ running) × (closing.calls 40 ≡ 1)
unfolding open_directory add_locked listen_at listen find_info
closing-calls = (refl, refl)

Reach-finished : Reach finished
unfolding is_pending
Reach-finished =
    let (run, not_closing, one) = watched-running in
    let (still, calls) = closing-calls in
    let (bare, running_, posted) = heard_last-empty in
    let a : Reach closing =
      later Reach-watched (close not_closing (λ e. absurd (ground (arith, run, e)))) in
    let b : Reach heard_last = later a (notify true 0 40 [] still (omega (arith, calls))) in
    later
      (later (later (later b (packet running_ (omega (arith, posted)))) (set_stopped true refl))
        (lock refl))
      (finish refl (ap is_pending bare))

-- The call fails, and the loop ends with the entry.
Reach-call_failed : Reach (record (complete 40 watched) { loop = left false })
Reach-call_failed =
    let (run, not_closing, one) = watched-running in
    later Reach-watched (call_fails 40 run (omega (arith, one)))

Reach-IsAccounted_example :
    (missed : Option ℕ) × ((ov : ℕ)
      → (complete 40 watched).calls ov + failures missed ov ≡ busy (find_info ov watched.infos))
    × ((has_failed (left false) ≡ true) ⊎ (missed ≡ none))
Reach-IsAccounted_example = Reach-IsAccounted Reach-call_failed

ended-calls_example : finished.calls 40 ≡ 0
ended-calls_example = ended-calls Reach-finished refl 40

overflow_ends_watch_example :
    ((process_event true 0 40 [] (complete 40 watched)).calls 40 ≡ 0)
    × (v : WatchInfo) × (find_info 40 (process_event true 0 40 [] (complete 40 watched)).infos
        ≡ some v)
    × (v.state ≡ initialized)
overflow_ends_watch_example =
    overflow_ends_watch true 40 [] listened Reach-watched (watched-running.0) watched-found refl
      here
