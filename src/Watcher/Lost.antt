-- ===== src/Watcher/Lost.antt =====
-- An entry after a completion without bytes.
use project_test_demo.Common.{
  Option, none, some, ℕ, ◌<◌, ◌==◌, ==_iff, Bool, true, false, List, ◌≡◌, refl, ap, sym, subst, ◌∙◌,
  arith, Bool-cases, inl, inr,
}
use project_test_demo.Watcher.{
  open_directory, add_opened, add_locked, WatchState, initialized, listening, pending_close,
  WatchInfo, Changes, running, FsWatcher, find_info, stop, heard, process_event, process_found,
  complete, remove_directory, Step, add, remove, close, notify, packet, port_fails, call_fails,
  clean_call_fails, set_stopped, lock, clean, clean_fails, finish, report, Reach, later,
}
use project_test_demo.Watcher.Entries.{find_info-set_info, find_info-stop_all}
use project_test_demo.Watcher.Calls.{failures, busy, process_event-found, removed}
use project_test_demo.Watcher.Closing.{has_failed, Reach-IsAccounted}
use project_test_demo.Watcher.Untouched.{
  process_event-untouched, add_locked-untouched, remove_directory-untouched, clean_one-untouched,
}

-- Any number of steps.
pub data Steps (s : FsWatcher) : FsWatcher → Type 0 where
  here : Steps s s
  more : {t u : FsWatcher} → Steps s t → Step t u → Steps s u

abbrev IsIdle : ℕ → FsWatcher → Type 0
IsIdle ov s = (w : WatchInfo) × (find_info ov s.infos ≡ some w) × (w.state ≡ initialized)

IsIdle-calls : (ov : ℕ) {s : FsWatcher} → Reach s → IsIdle ov s → s.calls ov ≡ 0
IsIdle-calls ov r (w, found, idle) =
    let (missed, acc, _) = Reach-IsAccounted r in
    let none_busy : busy (some w) ≡ 0 = ground (arith, idle) in
    omega (arith, acc ov, ap busy found, none_busy)

still-IsIdle :
    (ov : ℕ) (l m : List (ℕ × WatchInfo))
    → (w : WatchInfo) × (find_info ov l ≡ some w) × (w.state ≡ initialized)
    → find_info ov m ≡ find_info ov l
    → (w : WatchInfo) × (find_info ov m ≡ some w) × (w.state ≡ initialized)
still-IsIdle ov l m (w, found, idle) e = (w, e ∙ found, idle)

-- A call that is not completed is another entry's.
other_entry : (ov k : ℕ) {s : FsWatcher} → Reach s → IsIdle ov s → 0 < s.calls k → (k == ov) ≡ false
other_entry ov k {s} r i waiting = elim (Bool-cases (k == ov)) [
  | inl e ↦ absurd (omega (arith, waiting, IsIdle-calls ov r i, ap s.calls ((==_iff k ov).0 e)))
  | inr e ↦ e
]

idle-stop : (w : WatchInfo) → w.state ≡ initialized → (stop w).state ≡ initialized
idle-stop w e = ground (arith, e)

add_opened-IsIdle :
    (ov k : ℕ)
    → (k == ov) ≡ false
    → (res : Bool) (id : ℕ) (path : List ℕ) (o : Option ℕ) (s : FsWatcher) → IsIdle ov s
    → IsIdle ov (add_opened res id k path o s).1
add_opened-IsIdle ov k other res id path none s i = i
add_opened-IsIdle ov k other res id path (some handle) s i =
    still-IsIdle ov s.infos (add_locked res id k path handle s).1.infos i
      (add_locked-untouched k ov other res id path handle s)

Step-IsIdle : (ov : ℕ) {s t : FsWatcher} → Reach s → IsIdle ov s → Step s t → IsIdle ov t
unfolding remove_directory
Step-IsIdle ov {s} r i
      (add was_stopped handle has_info is_directory port res id k path c free fresh) =
    let (w, found, idle) = i in
    let other : (k == ov) ≡ false = elim (Bool-cases (k == ov)) [
      | inl e ↦
          absurd (ground (arith, fresh, found, ap (λ x. find_info x s.infos) ((==_iff k ov).0 e)))
      | inr e ↦ e
    ] in
    add_opened-IsIdle ov k other res id path
      (open_directory was_stopped handle has_info is_directory port) s i
Step-IsIdle ov {s} r i (remove k o free) =
    let (w, found, idle) = i in
    elim (Bool-cases (k == ov)) [
      | inl e ↦
          subst (λ x. IsIdle ov (remove_directory (some x) s)) (sym ((==_iff k ov).0 e))
            (subst (λ x. IsIdle ov (removed ov s x)) (sym found)
              (
                stop w,
                ground (arith, found, find_info-set_info ov ov (stop w) s.infos),
                idle-stop w idle,
              ))
      | inr e ↦ still-IsIdle ov s.infos _ i (remove_directory-untouched k ov e s)
    ]
Step-IsIdle ov {s} r (w, found, idle) (close o free) =
    (stop w, ground (arith, found, find_info-stop_all ov s.infos), idle-stop w idle)
Step-IsIdle ov {s} r i (notify res bytes k result at waiting) =
    still-IsIdle ov s.infos _ i
      (process_event-untouched k ov (other_entry ov k r i waiting) res bytes result (complete k s))
Step-IsIdle ov {s} r i (clean k at pending waiting) =
    still-IsIdle ov s.infos _ i
      (clean_one-untouched k ov (other_entry ov k r i waiting) (complete k s))
Step-IsIdle ov {s} r i (packet at some_packet) = i
Step-IsIdle ov {s} r i (port_fails at) = i
Step-IsIdle ov {s} r i (call_fails k at waiting) = i
Step-IsIdle ov {s} r i (clean_call_fails k at pending waiting) = i
Step-IsIdle ov {s} r i (set_stopped res at) = i
Step-IsIdle ov {s} r i (lock at) = i
Step-IsIdle ov {s} r i (clean_fails at pending) = i
Step-IsIdle ov {s} r i (finish at done) = i
Step-IsIdle ov {s} r i (report at) = i

Steps-IsIdle :
    (ov : ℕ) {s t : FsWatcher} → Reach s → IsIdle ov s → Steps s t → Reach t × IsIdle ov t
Steps-IsIdle ov r i here = (r, i)
Steps-IsIdle ov r i (more ss st) =
    let (q, j) = Steps-IsIdle ov r i ss in (later q st, Step-IsIdle ov q j st)

overflow-IsIdle :
    (res : Bool) (ov : ℕ) (result : Changes) (w : WatchInfo) (s : FsWatcher)
    → find_info ov s.infos ≡ some w
    → w.state ≡ listening
    → IsIdle ov (process_event res 0 ov result (complete ov s))
overflow-IsIdle res ov result w s found hearing =
    subst (IsIdle ov) (sym (process_event-found res 0 ov result w (complete ov s) found))
      (at (heard w.state) (ap heard hearing))
  where
    at :
        (st : WatchState)
        → st ≡ initialized
        → IsIdle ov (process_found res true ov result (record w { state = st }) (complete ov s))
    at initialized e = (
      record w { state = initialized },
      ground (arith, found, find_info-set_info ov ov (record w { state = initialized }) s.infos),
      refl,
    )
    at listening e = absurd (ground arith)
    at pending_close e = absurd (ground arith)

-- A completion without bytes for an entry that listens, which Windows gives when more has changed than
-- the buffer holds, ends the watch for good: whatever steps follow, the entry stays, has no call, and is
-- not listening, and `remove_directory` does not erase it.
pub overflow_ends_watch :
    (res : Bool) (ov : ℕ) (result : Changes) (w : WatchInfo) {s t : FsWatcher}
    → Reach s
    → s.loop ≡ running
    → find_info ov s.infos ≡ some w
    → w.state ≡ listening
    → Steps (process_event res 0 ov result (complete ov s)) t
    → (t.calls ov ≡ 0) × (v : WatchInfo) × (find_info ov t.infos ≡ some v) × (v.state ≡ initialized)
overflow_ends_watch res ov result w {s} r at found hearing steps =
    let one : busy (some w) ≡ 1 = ground (arith, hearing) in
    let (missed, acc, right) = Reach-IsAccounted r in
    let waiting : 0 < s.calls ov = elim right [
      | inl h ↦ absurd (ground (arith, h, ap has_failed at))
      | inr e ↦ omega (arith, acc ov, ap busy found, one, ap (λ k. failures k ov) e)
    ] in
    let (q, i) =
      Steps-IsIdle ov (later r (notify res 0 ov result at waiting))
        (overflow-IsIdle res ov result w s found hearing) steps in
    let (v, kept, idle) = i in (IsIdle-calls ov q i, v, kept, idle)
