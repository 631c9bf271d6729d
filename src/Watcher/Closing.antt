-- ===== src/Watcher/Closing.antt =====
-- What holds in every order of the steps, and the end of the loop.
use project_test_demo.Common.{
  Option, none, some, ℕ, Bool, true, false, List, ◌≡◌, refl, ap, sym, subst, not, ◌⊎◌, ◌+◌, ◌<◌,
  ◌∙◌, arith, Option-cases, Bool-cases, inl, inr,
}
use project_test_demo.Watcher.{
  open_directory, add_opened, add_locked, WatchState, is_pending_close, initialized, listening,
  pending_close, WatchInfo, Loop, running, left, stopped_set, cleaning, ended, FsWatcher, find_info,
  stop_all, stop, is_pending, complete, Step, add, remove, close, notify, packet, port_fails,
  call_fails, clean_call_fails, set_stopped, lock, clean, clean_fails, finish, report, Reach, start,
  later,
}
use project_test_demo.Watcher.Entries.{
  find_info-erase_info, find_info-stop_all, is_pending-find_info,
}
use project_test_demo.Watcher.Calls.{
  failures, failed_call-IsAccounted, busy, hears, IsAccounted, Alike, process_event-IsAccounted,
  clean_one-IsAccounted, add_locked-IsAccounted, remove_directory-IsAccounted, stop_all-IsAccounted,
}
use project_test_demo.Watcher.Kept.{
  process_event-Alike, add_locked-Alike, remove_directory-Alike, process_event-hears,
}

-- Whether the loop has been left for a packet.
abbrev leaves : Loop → Bool
leaves (left res) = res
leaves (stopped_set res) = res
leaves cleaning = true
leaves (ended res) = res
leaves running = false

-- Whether the loop has been left, or its cleaning, for a failure of GetQueuedCompletionStatus.
abbrev pub has_failed : Loop → Bool
has_failed (left res) = not res
has_failed (stopped_set res) = not res
has_failed (ended res) = not res
has_failed running = false
has_failed cleaning = false

record Inv (s : FsWatcher) : Type 0 where
  pub missed : Option ℕ
  pub accounted : IsAccounted (failures missed) s
  pub exact : has_failed s.loop ≡ false → missed ≡ none
  pub quiet : s.closing ≡ true → (j : ℕ) → hears (find_info j s.infos) ≡ 0
  pub posted : s.closing ≡ false → s.packets ≡ 0
  pub phase : leaves s.loop ≡ true → s.closing ≡ true
  pub cleaned : s.loop ≡ ended true → is_pending s.infos ≡ false

stop-hears : (w : WatchInfo) → hears (some (stop w)) ≡ 0
stop-hears w = elim w.state as (λ x. hears (some (stop (record w { state = x }))) ≡ 0) [
  | initialized ↦ refl
  | listening ↦ refl
  | pending_close ↦ refl
]

stop_all-hears : (j : ℕ) (m : List (ℕ × WatchInfo)) → hears (find_info j (stop_all m)) ≡ 0
stop_all-hears j m = elim (Option-cases (find_info j m)) [
  | inl e ↦ ground (arith, find_info-stop_all j m)
  | inr (w, e) ↦ ground (arith, find_info-stop_all j m, stop-hears w)
]

-- Before the destructor, what is like the state before.
open-Inv :
    (s t : FsWatcher)
    → s.closing ≡ false
    → (inv : Inv s) → Alike s t
    → IsAccounted (failures inv.missed) t
    → Inv t
open-Inv s t o inv (l, c, p) acc = record {
  missed = inv.missed;
  accounted = acc;
  exact = λ h. inv.exact (ap has_failed (sym l) ∙ h);
  quiet = λ h. absurd (ground (arith, o, c));
  posted = λ h. p ∙ inv.posted o;
  phase = λ h. c ∙ inv.phase (ap leaves (sym l) ∙ h);
  cleaned = λ h. absurd (ground (arith, o, inv.phase (ap leaves (sym l ∙ h))));
}

-- A step that only moves the loop.
moved-Inv :
    (s t : FsWatcher)
    → Inv s
    → t.infos ≡ s.infos
    → t.calls ≡ s.calls
    → t.closing ≡ s.closing
    → (s.closing ≡ false → t.packets ≡ 0)
    → (leaves t.loop ≡ true → s.closing ≡ true)
    → (has_failed t.loop ≡ false → has_failed s.loop ≡ false)
    → (t.loop ≡ ended true → is_pending s.infos ≡ false)
    → Inv t
moved-Inv s t inv i c k p l x e = record {
  missed = inv.missed;
  exact = λ h. inv.exact (x h);
  accounted = λ j.
      ap (λ f. f j + failures inv.missed j) c
      ∙ inv.accounted j
      ∙ ap (λ m. busy (find_info j m)) (sym i);
  quiet = λ h j. ap (λ m. hears (find_info j m)) i ∙ inv.quiet (sym k ∙ h) j;
  posted = λ h. p (sym k ∙ h);
  phase = λ h. k ∙ l h;
  cleaned = λ h. ap is_pending i ∙ e h;
}

add_opened-Inv :
    (res : Bool) (id ov : ℕ) (path : List ℕ) (o : Option ℕ) (s : FsWatcher)
    → Inv s
    → s.closing ≡ false
    → find_info ov s.infos ≡ none
    → Inv (add_opened res id ov path o s).1
add_opened-Inv res id ov path none s inv c fresh = inv
add_opened-Inv res id ov path (some handle) s inv c fresh =
    open-Inv s (add_locked res id ov path handle s).1 c inv
      (add_locked-Alike res id ov path handle s)
      (add_locked-IsAccounted (failures inv.missed) res id ov path handle s fresh inv.accounted)

-- A step in which the failure of a call ends the loop.
failed-Inv :
    (s : FsWatcher) (l : Loop) (ov : ℕ) (inv : Inv s)
    → 0 < s.calls ov
    → has_failed s.loop ≡ false
    → leaves l ≡ false
    → ¬ (l ≡ ended true)
    → has_failed l ≡ true
    → Inv (record (complete ov s) { loop = l })
failed-Inv s l ov inv waiting right stays other fails = record {
  missed = some ov;
  accounted =
      failed_call-IsAccounted ov s waiting
        (subst (λ k. IsAccounted (failures k) s) (inv.exact right) inv.accounted);
  exact = λ h. absurd (ground (arith, h, fails));
  quiet = inv.quiet;
  posted = inv.posted;
  phase = λ h. absurd (ground (arith, h, stays));
  cleaned = λ h. absurd (other h);
}

Step-Inv : {s t : FsWatcher} → Inv s → Step s t → Inv t
Step-Inv {s} inv (add was_stopped handle has_info is_directory port res id ov path o free fresh) =
    add_opened-Inv res id ov path (open_directory was_stopped handle has_info is_directory port) s
      inv o fresh
Step-Inv {s} inv (remove ov o free) =
    open-Inv s _ o inv (remove_directory-Alike ov s)
      (remove_directory-IsAccounted (failures inv.missed) ov s inv.accounted)
Step-Inv {s} inv (close o free) = record {
  missed = inv.missed;
  exact = inv.exact;
  accounted = stop_all-IsAccounted (failures inv.missed) s inv.accounted;
  quiet = λ h j. stop_all-hears j s.infos;
  posted = λ h. absurd (ground arith);
  phase = λ h. refl;
  cleaned = λ h. absurd (ground (arith, o, inv.phase (ap leaves h)));
}
Step-Inv {s} inv (notify res bytes ov result at waiting) =
    let (l, c, p) = process_event-Alike res bytes ov result (complete ov s) in
    record {
      missed = inv.missed;
      exact = λ h. inv.exact (ap has_failed at);
      accounted =
          process_event-IsAccounted (failures inv.missed) res bytes ov result s waiting
            inv.accounted;
      quiet = λ h.
          process_event-hears (failures inv.missed) res bytes ov result s waiting inv.accounted
            (inv.quiet (sym c ∙ h));
      posted = λ h. p ∙ inv.posted (sym c ∙ h);
      phase = λ h. c ∙ inv.phase (ap leaves (sym l) ∙ h);
      cleaned = λ h. absurd (ground (arith, at, sym l ∙ h));
    }
Step-Inv {s} inv (packet at some_packet) =
    moved-Inv s _ inv refl refl refl (λ h. omega (arith, inv.posted h))
      (λ h. elim (Bool-cases s.closing) [
        | inl c ↦ c
        | inr o ↦ absurd (omega (arith, inv.posted o, some_packet))
      ])
      (λ h. ap has_failed at) (λ h. absurd (ground arith))
Step-Inv {s} inv (port_fails at) =
    moved-Inv s _ inv refl refl refl inv.posted (λ h. absurd (ground arith)) (λ h. ap has_failed at)
      (λ h. absurd (ground arith))
Step-Inv {s} inv (call_fails ov at waiting) =
    failed-Inv s (left false) ov inv waiting (ap has_failed at) refl (λ h. absurd (ground arith))
      refl
Step-Inv {s} inv (clean_call_fails ov at pending waiting) =
    failed-Inv s (ended false) ov inv waiting (ap has_failed at) refl (λ h. absurd (ground arith))
      refl
Step-Inv {s} inv (set_stopped res at) =
    moved-Inv s _ inv refl refl refl inv.posted (λ h. inv.phase (ap leaves at ∙ h))
      (λ h. ap has_failed at ∙ h) (λ h. absurd (ground arith))
Step-Inv {s} inv (lock at) =
    moved-Inv s _ inv refl refl refl inv.posted (λ h. inv.phase (ap leaves at))
      (λ h. ap has_failed at) (λ h. absurd (ground arith))
Step-Inv {s} inv (clean ov at pending waiting) = record {
  missed = inv.missed;
  exact = inv.exact;
  accounted = clean_one-IsAccounted (failures inv.missed) ov s waiting inv.accounted;
  quiet = λ h j. ground (arith, inv.quiet h j, find_info-erase_info ov j s.infos);
  posted = inv.posted;
  phase = inv.phase;
  cleaned = λ h. absurd (ground (arith, at, h));
}
Step-Inv {s} inv (clean_fails at pending) =
    moved-Inv s _ inv refl refl refl inv.posted (λ h. absurd (ground arith)) (λ h. ap has_failed at)
      (λ h. absurd (ground arith))
Step-Inv {s} inv (finish at done) =
    moved-Inv s _ inv refl refl refl inv.posted (λ h. inv.phase (ap leaves at))
      (λ h. ap has_failed at) (λ h. done)
Step-Inv {s} inv (report at) =
    moved-Inv s _ inv refl refl refl inv.posted (λ h. absurd (ground arith))
      (λ h. absurd (ground arith)) (λ h. absurd (ground arith))

Reach-Inv : {s : FsWatcher} → Reach s → Inv s
unfolding find_info is_pending
Reach-Inv start = record {
  missed = none;
  exact = λ h. refl;
  accounted = λ j. refl;
  quiet = λ h j. refl;
  posted = λ h. refl;
  phase = λ h. absurd (ground arith);
  cleaned = λ h. refl;
}
Reach-Inv (later r st) = Step-Inv (Reach-Inv r) st

-- In every state that is reached, each entry that is listening or pending has one call whose completion
-- the loop has still to take, and other entries, and addresses without an entry, have none, but for one
-- entry at most: one whose call has failed, when the loop has been left, or its cleaning, because
-- GetQueuedCompletionStatus gave false for that call. So the buffers that Windows writes to exist.
pub Reach-IsAccounted :
    {s : FsWatcher}
    → Reach s
    → (missed : Option ℕ) × ((ov : ℕ)
        → s.calls ov + failures missed ov ≡ busy (find_info ov s.infos))
      × ((has_failed s.loop ≡ true) ⊎ (missed ≡ none))
Reach-IsAccounted {s} r =
    let inv = Reach-Inv r in
    (
      inv.missed,
      inv.accounted,
      elim (Bool-cases (has_failed s.loop)) [ inl h ↦ inl h | inr h ↦ inr (inv.exact h) ],
    )

-- When the loop has ended because no entry was pending any more, and not because
-- GetQueuedCompletionStatus failed, no call is left whose completion it has not taken.
pub ended-calls : {s : FsWatcher} → Reach s → s.loop ≡ ended true → (ov : ℕ) → s.calls ov ≡ 0
ended-calls {s} r e ov = elim (Option-cases (find_info ov s.infos)) [
  | inl n ↦ omega (arith, inv.accounted ov, ap busy n)
  | inr (w, found) ↦ omega (
    arith,
    inv.accounted ov,
    ap busy found
        ∙ at w w.state (is_pending-find_info ov w s.infos (inv.cleaned e) found)
            (sym (ap hears found) ∙ inv.quiet (inv.phase (ap leaves e)) ov),
  )
]
  where
    inv : Inv s
    inv = Reach-Inv r

    at :
        (w : WatchInfo) (st : WatchState)
        → is_pending_close st ≡ false
        → hears (some (record w { state = st })) ≡ 0
        → busy (some (record w { state = st })) ≡ 0
    at w initialized p h = refl
    at w listening p h = h
    at w pending_close p h = absurd (ground arith)
