-- ===== src/Watcher/Kept.antt =====
-- What the operations on the entries leave as it is.
use project_test_demo.Common.{
  ℕ, ◌<◌, ◌==◌, if◌then◌else◌, Bool, true, false, Option, none, some, List, ◌∷◌, ◌≡◌, refl, ap, sym,
  subst, ◌∙◌, arith, Option-cases, inl, inr,
}
use project_test_demo.Watcher.{
  WatchState, initialized, listening, pending_close, WatchInfo, Changes, error_event, FsWatcher,
  find_info, set_info, listen, listen_at, emit, erased, add_locked, new_info, remove_directory,
  heard, changed, process_found, process_event, complete,
}
use project_test_demo.Watcher.Entries.{find_info-set_info, find_info-erase_info}
use project_test_demo.Watcher.Calls.{
  removed, added, Alike, outcome, busy, hears, IsAccounted, process_event-found,
  process_event-missing, changed-same,
}

listen_at-Alike :
    (res : Bool) (ov : ℕ) (w : WatchInfo) (failed : FsWatcher → FsWatcher) (s : FsWatcher)
    → ((u : FsWatcher) → Alike u (failed u))
    → Alike s (listen_at res ov w failed s).1
unfolding listen_at
listen_at-Alike res ov w failed s same = at (listen res w).0 (listen res w).1
  where
    at : (ok : Bool) (x : WatchInfo) → Alike s (outcome ov s failed ok x).1
    at true x = (refl, refl, refl)
    at false x = same (record s { infos = set_info ov x s.infos })

Alike-trans : (s t u : FsWatcher) → Alike s t → Alike t u → Alike s u
Alike-trans s t u (a, b, c) (d, e, f) = (d ∙ a, e ∙ b, f ∙ c)

process_found-Alike :
    (res no_bytes : Bool) (ov : ℕ) (result : Changes) (w : WatchInfo) (s : FsWatcher)
    → Alike s (process_found res no_bytes ov result w s)
process_found-Alike res no_bytes ov result w s = at w.state no_bytes
  where
    go_on :
        (x : WatchInfo)
        → Alike s
            (listen_at res ov x
              (λ u. erased ov (emit (error_event x.id) u))
              (changed x.id result (record s { infos = set_info ov x s.infos }))).1
    go_on x =
        let t : FsWatcher = record s { infos = set_info ov x s.infos } in
        Alike-trans s (changed x.id result t)
          (listen_at res ov x (λ u. erased ov (emit (error_event x.id) u))
            (changed x.id result t)).1
          (changed-same x.id result t).2
          (listen_at-Alike res ov x (λ u. erased ov (emit (error_event x.id) u))
            (changed x.id result t) (λ u. (refl, refl, refl)))

    at :
        (st : WatchState) (b : Bool)
        → Alike s (process_found res b ov result (record w { state = st }) s)
    at pending_close true = (refl, refl, refl)
    at pending_close false = (refl, refl, refl)
    at initialized true = (refl, refl, refl)
    at initialized false = go_on (record w { state = initialized })
    at listening true = (refl, refl, refl)
    at listening false = go_on (record w { state = listening })

pub process_event-Alike :
    (res : Bool) (bytes ov : ℕ) (result : Changes) (s : FsWatcher)
    → Alike s (process_event res bytes ov result s)
process_event-Alike res bytes ov result s = elim (Option-cases (find_info ov s.infos)) [
  | inl e ↦ subst (Alike s) (sym (process_event-missing res bytes ov result s e)) (refl, refl, refl)
  | inr (w, e) ↦
      subst (Alike s) (sym (process_event-found res bytes ov result w s e))
        (process_found-Alike res (bytes == 0) ov result (record w { state = heard w.state }) s)
]

pub add_locked-Alike :
    (res : Bool) (id ov : ℕ) (path : List ℕ) (handle : ℕ) (s : FsWatcher)
    → Alike s (add_locked res id ov path handle s).1
unfolding add_locked
add_locked-Alike res id ov path handle s = at (find_info ov s.infos)
  where
    w : WatchInfo
    w = new_info id ov path handle

    t : FsWatcher
    t = record s { infos = (ov, w) ∷ s.infos }

    if_stopped :
        (b : Bool)
        → Alike s (if b then (false, erased ov t) else listen_at res ov w (erased ov) t).1
    if_stopped true = (refl, refl, refl)
    if_stopped false = listen_at-Alike res ov w (erased ov) t (λ u. (refl, refl, refl))

    at : (o : Option WatchInfo) → Alike s (added res id ov path handle s o).1
    at (some v) = (refl, refl, refl)
    at none = if_stopped s.stopped

pub remove_directory-Alike : (ov : ℕ) (s : FsWatcher) → Alike s (remove_directory (some ov) s)
unfolding remove_directory
remove_directory-Alike ov s = at (find_info ov s.infos)
  where
    at : (o : Option WatchInfo) → Alike s (removed ov s o)
    at none = (refl, refl, refl)
    at (some w) = (refl, refl, refl)

-- While nothing listens, a completion ends the entry.
pub process_event-hears :
    (f : ℕ → ℕ) (res : Bool) (bytes ov : ℕ) (result : Changes) (s : FsWatcher)
    → 0 < s.calls ov
    → IsAccounted f s
    → ((j : ℕ) → hears (find_info j s.infos) ≡ 0)
    → (j : ℕ) → hears (find_info j (process_event res bytes ov result (complete ov s)).infos) ≡ 0
process_event-hears f res bytes ov result s waiting acc quiet j =
    elim (Option-cases (find_info ov s.infos)) [
      | inl e ↦ absurd (omega (arith, waiting, acc ov, ap busy e))
      | inr (w, e) ↦
          ap (λ t. hears (find_info j t.infos))
            (process_event-found res bytes ov result w (complete ov s) e)
          ∙ at w w.state (omega (arith, waiting, acc ov, ap busy e)) (sym (ap hears e) ∙ quiet ov)
              (bytes == 0)
    ]
  where
    at :
        (w : WatchInfo) (st : WatchState)
        → 0 < busy (some (record w { state = st }))
        → hears (some (record w { state = st })) ≡ 0
        → (b : Bool)
        → hears (
            find_info j
              (process_found res b ov result (record w { state = heard st }) (complete ov s)).infos)
          ≡ 0
    at w initialized one none_heard b = absurd (omega (arith, one))
    at w listening one none_heard b = absurd (omega (arith, none_heard))
    at w pending_close one none_heard true = ground (
      arith,
      quiet j,
      find_info-set_info ov j (record w { state = pending_close }) s.infos,
      find_info-erase_info ov j (set_info ov (record w { state = pending_close }) s.infos),
    )
    at w pending_close one none_heard false = ground (
      arith,
      quiet j,
      find_info-set_info ov j (record w { state = pending_close }) s.infos,
      find_info-erase_info ov j (set_info ov (record w { state = pending_close }) s.infos),
    )
