-- ===== src/Watcher.antt =====
-- rdc_fs_watcher.h and rdc_fs_watcher.cpp: the watcher of directories. An OVERLAPPED is its address, a
-- handle a number, and INVALID_HANDLE_VALUE is `none`. The answers of Windows are arguments.
use project_test_demo.Common.{
  ℕ, zero, suc, ◌+◌, ◌-◌, ◌==◌, if◌then◌else◌, Bool, true, false, ◌||◌, Option, none, some, List,
  [], ◌∷◌, ◌++◌, ◌≡◌, ◌≢◌, ◌<◌,
}
pub mod Entries
pub mod Calls
pub mod Kept
pub mod Closing
pub mod Untouched
pub mod Lost
pub mod Buffer
pub mod Names
pub mod Layout
mod Tests
mod BufferTests

-- `watch_state`
pub data WatchState : Type 0 where
  initialized : WatchState
  listening : WatchState
  pending_close : WatchState

-- `watch_info` less its buffer, which Windows fills before a completion and which is an argument of
-- what reads it.
pub record WatchInfo : Type 0 where
  pub id : ℕ
  pub overlapped : Option ℕ
  pub path : List ℕ
  pub directory : Option ℕ
  pub state : WatchState

-- `std::set<std::pair<std::wstring, uint32_t>>`: each pair once, the order is not modelled.
abbrev pub Changes : Type 0
Changes = List (List ℕ × ℕ)

-- The calls of `change_event_` and `error_event_`.
pub data Event : Type 0 where
  change_event : ℕ → Changes → Event
  error_event : ℕ → Event

-- Where the thread of `event_loop` stands; the Boolean is `res`. While it is `cleaning` it holds the
-- mutex.
pub data Loop : Type 0 where
  running : Loop
  left : Bool → Loop
  stopped_set : Bool → Loop
  cleaning : Loop
  ended : Bool → Loop

-- `calls` counts the calls of ReadDirectoryChangesW for an OVERLAPPED of which `event_loop` has not
-- taken a completion, `packets` the packets that were posted, and `closing` is whether the destructor
-- has begun.
pub record FsWatcher : Type 0 where
  pub stopped : Bool
  pub infos : List (ℕ × WatchInfo)
  pub events : List Event
  pub loop : Loop
  pub calls : ℕ → ℕ
  pub packets : ℕ
  pub closing : Bool

-- `watch_infos_`
unfoldable pub find_info : ℕ → List (ℕ × WatchInfo) → Option WatchInfo
find_info k [] = none
find_info k ((j, w) ∷ m) = if j == k then some w else find_info k m

unfoldable pub set_info : ℕ → WatchInfo → List (ℕ × WatchInfo) → List (ℕ × WatchInfo)
set_info k v [] = []
set_info k v ((j, w) ∷ m) = (j, if j == k then v else w) ∷ set_info k v m

unfoldable pub erase_info : ℕ → List (ℕ × WatchInfo) → List (ℕ × WatchInfo)
erase_info k [] = []
erase_info k ((j, w) ∷ m) = let rest = erase_info k m in if j == k then rest else (j, w) ∷ rest

-- `watch_info::watch_info`
abbrev pub new_info : ℕ → ℕ → List ℕ → ℕ → WatchInfo
new_info id ov path handle = record {
  id = id;
  overlapped = some ov;
  path = path;
  directory = some handle;
  state = initialized;
}

-- `watch_info::listen`, with the answer of ReadDirectoryChangesW.
unfoldable pub listen : Bool → WatchInfo → Bool × WatchInfo
listen res w = elim w.state [
  | initialized ↦ elim w.overlapped [
    | none ↦ (false, w)
    | some ov ↦
        if res
        then (true, record w { state = listening })
        else (false, record w { state = initialized })
  ]
  | _ ↦ (false, w)
]

-- `watch_info::stop`
abbrev pub closing_state : WatchState → WatchState
closing_state listening = pending_close
closing_state x = x

abbrev pub stop : WatchInfo → WatchInfo
stop w = record w { state = closing_state w.state; directory = none }

-- `watch_info::is_run`
abbrev pub is_run : WatchState → Bool
is_run pending_close = false
is_run x = true

abbrev pub update : (ℕ → ℕ) → ℕ → ℕ → ℕ → ℕ
update f k n j = if j == k then n else f j

abbrev pub emit : Event → FsWatcher → FsWatcher
emit e s = record s { events = s.events ++ (e ∷ []) }

-- `listen` on an entry: what follows when it fails is an argument.
unfoldable pub listen_at :
    Bool → ℕ → WatchInfo → (FsWatcher → FsWatcher) → FsWatcher → Bool × FsWatcher
listen_at res ov w failed s =
    let (ok, v) = listen res w in
    let t = record s { infos = set_info ov v s.infos } in
    if ok
    then (true, record t { calls = update t.calls ov (t.calls ov + 1) })
    else (false, failed t)

abbrev pub erased : ℕ → FsWatcher → FsWatcher
erased ov s = record s { infos = erase_info ov s.infos }

-- `add_directory` before the lock: the handle, whether it was information that could be read of it, the
-- attribute, and whether it could be joined to the port.
unfoldable pub open_directory : Bool → Option ℕ → Bool → Bool → Bool → Option ℕ
open_directory true handle has_info is_directory port = none
open_directory false none has_info is_directory port = none
open_directory false (some h) has_info is_directory port =
    if has_info then (if is_directory then (if port then some h else none) else none) else none

-- `add_directory` under the lock, with the address of the new OVERLAPPED.
unfoldable pub add_locked : Bool → ℕ → ℕ → List ℕ → ℕ → FsWatcher → Bool × FsWatcher
add_locked res id ov path handle s = elim (find_info ov s.infos) [
  | some w ↦ (false, s)
  | none ↦
      let w = new_info id ov path handle in
      let t = record s { infos = (ov, w) ∷ s.infos } in
      if s.stopped then (false, erased ov t) else listen_at res ov w (erased ov) t
]

abbrev pub add_opened : Bool → ℕ → ℕ → List ℕ → Option ℕ → FsWatcher → Bool × FsWatcher
add_opened res id ov path none s = (false, s)
add_opened res id ov path (some handle) s = add_locked res id ov path handle s

-- `add_directory`; between its first test of `stopped_` and the lock, the loop may go on.
abbrev pub add_directory :
    Bool → Option ℕ → Bool → Bool → Bool → Bool → ℕ → ℕ → List ℕ → FsWatcher → Bool × FsWatcher
add_directory was_stopped handle has_info is_directory port res id ov path =
    add_opened res id ov path (open_directory was_stopped handle has_info is_directory port)

-- `remove_directory`, with what `find_if` gives: an entry with the number, but not which one when
-- there are several.
unfoldable pub remove_directory : Option ℕ → FsWatcher → FsWatcher
remove_directory none s = s
remove_directory (some ov) s = elim (find_info ov s.infos) [
  | none ↦ s
  | some w ↦ record s { infos = set_info ov (stop w) s.infos }
]

-- `stop_event_loop`
unfoldable pub stop_all : List (ℕ × WatchInfo) → List (ℕ × WatchInfo)
stop_all [] = []
stop_all ((ov, w) ∷ m) = (ov, stop w) ∷ stop_all m

abbrev pub stop_event_loop : FsWatcher → FsWatcher
stop_event_loop s = record s { infos = stop_all s.infos; packets = s.packets + 1; closing = true }

abbrev pub heard : WatchState → WatchState
heard listening = initialized
heard x = x

abbrev pub changed : ℕ → Changes → FsWatcher → FsWatcher
changed id [] s = s
changed id (c ∷ cs) s = emit (change_event id (c ∷ cs)) s

-- `process_event`, with what `process_notifications` gives and the answer of ReadDirectoryChangesW.
-- It is told whether no bytes were read.
abbrev pub process_found : Bool → Bool → ℕ → Changes → WatchInfo → FsWatcher → FsWatcher
process_found res no_bytes ov result w s =
    let t = record s { infos = set_info ov w s.infos } in
    if no_bytes
    then (if is_run w.state then emit (error_event w.id) t else erased ov t)
    else (if is_run w.state
        then (listen_at res ov w (λ u. erased ov (emit (error_event w.id) u))
            (changed w.id result t)).1
        else erased ov t)

unfoldable pub process_event : Bool → ℕ → ℕ → Changes → FsWatcher → FsWatcher
process_event res bytes ov result s = elim (find_info ov s.infos) [
  | none ↦ s
  | some w ↦ process_found res (bytes == 0) ov result (record w { state = heard w.state }) s
]

-- The loop that waits for the entries which are closing_state: the test, and what is done for a completion.
abbrev pub is_pending_close : WatchState → Bool
is_pending_close pending_close = true
is_pending_close x = false

unfoldable pub is_pending : List (ℕ × WatchInfo) → Bool
is_pending [] = false
is_pending ((ov, w) ∷ m) = is_pending_close w.state || is_pending m

abbrev pub clean_one : ℕ → FsWatcher → FsWatcher
clean_one ov s = erased ov s

-- The end of `event_loop` when the port fails.
unfoldable pub report_all : List (ℕ × WatchInfo) → List Event
report_all [] = []
report_all ((ov, w) ∷ m) = error_event w.id ∷ report_all m

-- Windows completes a call.
abbrev pub complete : ℕ → FsWatcher → FsWatcher
complete ov s = record s { calls = update s.calls ov (s.calls ov - 1) }

-- The steps of the program and of Windows. What takes the mutex has no step while `event_loop` holds
-- it, the members are called only before the destructor, and an address is allocated once.
-- GetQueuedCompletionStatus gives false when the port fails, and for a call that has failed, whose
-- completion it has then taken.
pub data Step (s : FsWatcher) : FsWatcher → Type 0 where
  add :
      (was_stopped : Bool) (handle : Option ℕ) (has_info is_directory port res : Bool) (id ov : ℕ)
      (path : List ℕ)
      → s.closing ≡ false
      → s.loop ≢ cleaning
      → find_info ov s.infos ≡ none
      → Step s ((add_directory was_stopped handle has_info is_directory port res id ov path s).1)
  remove : (ov : ℕ) → s.closing ≡ false → s.loop ≢ cleaning → Step s (remove_directory (some ov) s)
  close : s.closing ≡ false → s.loop ≢ cleaning → Step s (stop_event_loop s)
  notify :
      (res : Bool) (bytes ov : ℕ) (result : Changes)
      → s.loop ≡ running
      → 0 < s.calls ov
      → Step s (process_event res bytes ov result (complete ov s))
  packet :
      s.loop ≡ running
      → 0 < s.packets
      → Step s (record s { loop = left true; packets = s.packets - 1 })
  port_fails : s.loop ≡ running → Step s (record s { loop = left false })
  call_fails :
      (ov : ℕ)
      → s.loop ≡ running
      → 0 < s.calls ov
      → Step s (record (complete ov s) { loop = left false })
  set_stopped :
      (res : Bool)
      → s.loop ≡ left res
      → Step s (record s { loop = stopped_set res; stopped = true })
  lock : s.loop ≡ stopped_set true → Step s (record s { loop = cleaning })
  clean :
      (ov : ℕ)
      → s.loop ≡ cleaning
      → is_pending s.infos ≡ true
      → 0 < s.calls ov
      → Step s (clean_one ov (complete ov s))
  clean_fails :
      s.loop ≡ cleaning → is_pending s.infos ≡ true → Step s (record s { loop = ended false })
  clean_call_fails :
      (ov : ℕ)
      → s.loop ≡ cleaning
      → is_pending s.infos ≡ true
      → 0 < s.calls ov
      → Step s (record (complete ov s) { loop = ended false })
  finish : s.loop ≡ cleaning → is_pending s.infos ≡ false → Step s (record s { loop = ended true })
  report :
      s.loop ≡ stopped_set false
      → Step s (record s { loop = ended false; events = s.events ++ report_all s.infos })

-- The constructor.
abbrev pub new_watcher : FsWatcher
new_watcher = record {
  stopped = false;
  infos = [];
  events = [];
  loop = running;
  calls = λ ov. 0;
  packets = 0;
  closing = false;
}

pub data Reach : FsWatcher → Type 0 where
  start : Reach new_watcher
  later : {s t : FsWatcher} → Reach s → Step s t → Reach t
