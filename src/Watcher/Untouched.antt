-- ===== src/Watcher/Untouched.antt =====
-- An operation on one entry leaves the other entries as they are.
use project_test_demo.Common.{
  ℕ, ◌==◌, if◌then◌else◌, Bool, true, false, Option, none, some, List, ◌∷◌, ◌≡◌, refl, ap, sym,
  subst, ◌∙◌, arith, Option-cases, inl, inr,
}
use project_test_demo.Watcher.{
  WatchState, initialized, listening, pending_close, WatchInfo, Changes, error_event, FsWatcher,
  find_info, set_info, erase_info, listen, listen_at, emit, erased, add_locked, new_info,
  remove_directory, stop, heard, changed, process_found, process_event,
}
use project_test_demo.Watcher.Entries.{find_info-set_info, find_info-erase_info}
use project_test_demo.Watcher.Calls.{
  added, removed, outcome, process_event-found, process_event-missing, changed-same,
}

module _ (ov j : ℕ) (other : (ov == j) ≡ false) where
  abbrev Untouched : FsWatcher → FsWatcher → Type 0
  Untouched s t = find_info j t.infos ≡ find_info j s.infos

  set-untouched :
      (w : WatchInfo) (m : List (ℕ × WatchInfo)) → find_info j (set_info ov w m) ≡ find_info j m
  set-untouched w m = ground (arith, find_info-set_info ov j w m)

  erase-untouched : (m : List (ℕ × WatchInfo)) → find_info j (erase_info ov m) ≡ find_info j m
  erase-untouched m = ground (arith, find_info-erase_info ov j m)

  listen_at-Untouched :
      (res : Bool) (w : WatchInfo) (failed : FsWatcher → FsWatcher) (s : FsWatcher)
      → ((u : FsWatcher) → Untouched u (failed u))
      → Untouched s (listen_at res ov w failed s).1
  unfolding listen_at
  listen_at-Untouched res w failed s same = at (listen res w).0 (listen res w).1
    where
      at : (ok : Bool) (x : WatchInfo) → Untouched s (outcome ov s failed ok x).1
      at true x = set-untouched x s.infos
      at false x = same (record s { infos = set_info ov x s.infos }) ∙ set-untouched x s.infos

  process_found-Untouched :
      (res no_bytes : Bool) (result : Changes) (w : WatchInfo) (s : FsWatcher)
      → Untouched s (process_found res no_bytes ov result w s)
  process_found-Untouched res no_bytes result w s = at w.state no_bytes
    where
      gone :
          (x : WatchInfo)
          → find_info j (erase_info ov (set_info ov x s.infos)) ≡ find_info j s.infos
      gone x = erase-untouched (set_info ov x s.infos) ∙ set-untouched x s.infos

      go_on :
          (x : WatchInfo)
          → Untouched s
              (listen_at res ov x
                (λ u. erased ov (emit (error_event x.id) u))
                (changed x.id result (record s { infos = set_info ov x s.infos }))).1
      go_on x =
          let t : FsWatcher = record s { infos = set_info ov x s.infos } in
          listen_at-Untouched res x (λ u. erased ov (emit (error_event x.id) u))
            (changed x.id result t) (λ u. erase-untouched u.infos)
          ∙ ap (find_info j) (changed-same x.id result t).0
          ∙ set-untouched x s.infos

      at :
          (st : WatchState) (b : Bool)
          → Untouched s (process_found res b ov result (record w { state = st }) s)
      at pending_close true = gone (record w { state = pending_close })
      at pending_close false = gone (record w { state = pending_close })
      at initialized true = set-untouched (record w { state = initialized }) s.infos
      at initialized false = go_on (record w { state = initialized })
      at listening true = set-untouched (record w { state = listening }) s.infos
      at listening false = go_on (record w { state = listening })

  pub process_event-untouched :
      (res : Bool) (bytes : ℕ) (result : Changes) (s : FsWatcher)
      → find_info j (process_event res bytes ov result s).infos ≡ find_info j s.infos
  process_event-untouched res bytes result s = elim (Option-cases (find_info ov s.infos)) [
    | inl e ↦ subst (Untouched s) (sym (process_event-missing res bytes ov result s e)) refl
    | inr (w, e) ↦
        subst (Untouched s) (sym (process_event-found res bytes ov result w s e))
          (process_found-Untouched res (bytes == 0) result (record w { state = heard w.state }) s)
  ]

  pub add_locked-untouched :
      (res : Bool) (id : ℕ) (path : List ℕ) (handle : ℕ) (s : FsWatcher)
      → find_info j (add_locked res id ov path handle s).1.infos ≡ find_info j s.infos
  unfolding add_locked find_info
  add_locked-untouched res id path handle s = at (find_info ov s.infos)
    where
      w : WatchInfo
      w = new_info id ov path handle

      t : FsWatcher
      t = record s { infos = (ov, w) ∷ s.infos }

      front : find_info j t.infos ≡ find_info j s.infos
      front = ground (arith, other)

      if_stopped :
          (b : Bool)
          → Untouched s (if b then (false, erased ov t) else listen_at res ov w (erased ov) t).1
      if_stopped true = erase-untouched t.infos ∙ front
      if_stopped false =
          listen_at-Untouched res w (erased ov) t (λ u. erase-untouched u.infos) ∙ front

      at : (o : Option WatchInfo) → Untouched s (added res id ov path handle s o).1
      at (some v) = refl
      at none = if_stopped s.stopped

  pub remove_directory-untouched :
      (s : FsWatcher) → find_info j (remove_directory (some ov) s).infos ≡ find_info j s.infos
  unfolding remove_directory
  remove_directory-untouched s = at (find_info ov s.infos)
    where
      at : (o : Option WatchInfo) → Untouched s (removed ov s o)
      at none = refl
      at (some w) = set-untouched (stop w) s.infos

  pub clean_one-untouched : (s : FsWatcher) → find_info j (erased ov s).infos ≡ find_info j s.infos
  clean_one-untouched s = erase-untouched s.infos
