-- ===== src/Watcher/Calls.antt =====
-- The calls that Windows has not completed, and the entries whose buffer they write to.
use project_test_demo.Common.{
  ℕ, ◌+◌, ◌<◌, ◌==◌, if◌then◌else◌, Bool, true, false, Option, none, some, List, [], ◌∷◌, ◌≡◌, refl,
  ap, sym, subst, ◌∙◌, arith, Option-cases, inl, inr,
}
use project_test_demo.Watcher.{
  WatchState, initialized, listening, pending_close, WatchInfo, Changes, error_event, FsWatcher,
  find_info, set_info, erase_info, listen, listen_at, update, emit, erased, add_locked, new_info,
  remove_directory, stop, heard, changed, process_found, process_event, complete, clean_one,
  stop_event_loop,
}
use project_test_demo.Watcher.Entries.{find_info-set_info, find_info-erase_info, find_info-stop_all}

-- The calls that are not completed for an entry.
abbrev pub busy : Option WatchInfo → ℕ
busy none = 0
busy (some w) = elim w.state [ initialized ↦ 0 | _ ↦ 1 ]

-- Whether an entry is listening.
abbrev pub hears : Option WatchInfo → ℕ
hears none = 0
hears (some w) = elim w.state [ listening ↦ 1 | _ ↦ 0 ]

-- Where f counts the calls of which a failure was taken: each call that was made for the entry as it is
-- has not been completed, or has failed.
abbrev pub IsAccounted : (ℕ → ℕ) → FsWatcher → Type 0
IsAccounted f s = (j : ℕ) → s.calls j + f j ≡ busy (find_info j s.infos)

-- What only the loop, the destructor and the packets are.
abbrev pub Alike : FsWatcher → FsWatcher → Type 0
Alike s t = (t.loop ≡ s.loop) × (t.closing ≡ s.closing) × (t.packets ≡ s.packets)

listen-true :
    (res : Bool) (w : WatchInfo) → (listen res w).0 ≡ true → (listen res w).1.state ≡ listening
unfolding listen
listen-true res w e =
    elim w.state
        as (λ x.
          (listen res (record w { state = x })).0 ≡ true
          → (listen res (record w { state = x })).1.state ≡ listening) [
            | initialized ↦
                elim w.overlapped
                  as (λ o.
                    (listen res (record w { state = initialized; overlapped = o })).0 ≡ true
                    → (listen res (record w { state = initialized; overlapped = o })).1.state
                      ≡ listening) [
                        | none ↦ λ h. ground arith
                        | some ov ↦
                            elim res
                              as (λ r.
                                (listen r
                                    (record w { state = initialized; overlapped = some ov })).0
                                  ≡ true
                                → (listen r (record w {
                                  state = initialized;
                                  overlapped = some ov;
                                })).1.state
                                  ≡ listening) [ true ↦ λ h. refl | false ↦ λ h. ground arith ]
                      ]
            | listening ↦ λ h. ground arith
            | pending_close ↦ λ h. ground arith
          ]
      e

abbrev pub outcome : ℕ → FsWatcher → (FsWatcher → FsWatcher) → Bool → WatchInfo → Bool × FsWatcher
outcome ov s failed ok v =
    let t = record s { infos = set_info ov v s.infos } in
    if ok
    then (true, record t { calls = update t.calls ov (t.calls ov + 1) })
    else (false, failed t)

-- The call whose failure the loop has taken, if there is one.
abbrev pub failures : Option ℕ → ℕ → ℕ
failures none j = 0
failures (some ov) j = if ov == j then 1 else 0

-- A listen on an entry for which no call is left.
listen_at-IsAccounted :
    (f : ℕ → ℕ) (res : Bool) (ov : ℕ) (w v : WatchInfo) (failed : FsWatcher → FsWatcher)
    (s : FsWatcher)
    → ((u : FsWatcher) → (failed u).infos ≡ erase_info ov u.infos)
    → ((u : FsWatcher) → (failed u).calls ≡ u.calls)
    → find_info ov s.infos ≡ some v
    → ((j : ℕ) → s.calls j + f j ≡ (if ov == j then 0 else busy (find_info j s.infos)))
    → IsAccounted f (listen_at res ov w failed s).1
unfolding listen_at
listen_at-IsAccounted f res ov w v failed s gone kept found acc j =
    at (listen res w).0 (listen res w).1 (listen-true res w)
  where
    at :
        (ok : Bool) (x : WatchInfo)
        → (ok ≡ true → x.state ≡ listening)
        → (outcome ov s failed ok x).1.calls j + f j
          ≡ busy (find_info j (outcome ov s failed ok x).1.infos)
    at true x h = ground (arith, h refl, acc j, acc ov, find_info-set_info ov j x s.infos)
    at false x h =
        let t = record s { infos = set_info ov x s.infos } in
        ap (λ c. c j + f j) (kept t)
        ∙ ground
            (arith, acc j, find_info-set_info ov j x s.infos, find_info-erase_info ov j t.infos)
        ∙ ap (λ m. busy (find_info j m)) (sym (gone t))

erased-IsAccounted :
    (f : ℕ → ℕ) (ov : ℕ) (w : WatchInfo) (s : FsWatcher)
    → ((j : ℕ) → s.calls j + f j ≡ (if ov == j then 0 else busy (find_info j s.infos)))
    → IsAccounted f (erased ov (record s { infos = set_info ov w s.infos }))
erased-IsAccounted f ov w s acc j = ground (
  arith,
  acc j,
  find_info-set_info ov j w s.infos,
  find_info-erase_info ov j (set_info ov w s.infos),
)

heard-quiet : (st : WatchState) → ¬ (heard st ≡ listening)
heard-quiet initialized e = absurd (ground arith)
heard-quiet listening e = absurd (ground arith)
heard-quiet pending_close e = absurd (ground arith)

pub changed-same :
    (id : ℕ) (result : Changes) (s : FsWatcher)
    → ((changed id result s).infos ≡ s.infos)
      × ((changed id result s).calls ≡ s.calls)
      × Alike s (changed id result s)
changed-same id [] s = (refl, refl, (refl, refl, refl))
changed-same id (c ∷ cs) s = (refl, refl, (refl, refl, refl))

-- An entry that is found for a completed call, in a state that is not listening.
process_found-IsAccounted :
    (f : ℕ → ℕ) (res no_bytes : Bool) (ov : ℕ) (result : Changes) (v w : WatchInfo) (s : FsWatcher)
    → find_info ov s.infos ≡ some v
    → ((j : ℕ) → s.calls j + f j ≡ (if ov == j then 0 else busy (find_info j s.infos)))
    → IsAccounted f (process_found res no_bytes ov result (record w { state = heard w.state }) s)
process_found-IsAccounted f res no_bytes ov result v w s found acc =
    at (heard w.state) (heard-quiet w.state) no_bytes
  where
    at :
        (st : WatchState)
        → ¬ (st ≡ listening)
        → (n : Bool) → IsAccounted f (process_found res n ov result (record w { state = st }) s)
    at listening h n = absurd (h refl)
    at pending_close h true = erased-IsAccounted f ov (record w { state = pending_close }) s acc
    at pending_close h false = erased-IsAccounted f ov (record w { state = pending_close }) s acc
    at initialized h true = λ j. ground (
      arith,
      found,
      acc j,
      acc ov,
      find_info-set_info ov j (record w { state = initialized }) s.infos,
    )
    at initialized h false =
        let x : WatchInfo = record w { state = initialized } in
        let t : FsWatcher = changed w.id result (record s { infos = set_info ov x s.infos }) in
        let (infos, calls, _) =
          changed-same w.id result (record s { infos = set_info ov x s.infos }) in
        listen_at-IsAccounted f res ov x x (λ u. erased ov (emit (error_event w.id) u)) t
          (λ u. refl) (λ u. refl)
          (ap (find_info ov) infos ∙ ground (arith, found, find_info-set_info ov ov x s.infos))
          (λ j.
            ap (λ c. c j + f j) calls
            ∙ ground (arith, acc j, ap (find_info j) infos, find_info-set_info ov j x s.infos))

pub process_event-found :
    (res : Bool) (bytes ov : ℕ) (result : Changes) (w : WatchInfo) (s : FsWatcher)
    → find_info ov s.infos ≡ some w
    → process_event res bytes ov result s
      ≡ process_found res (bytes == 0) ov result (record w { state = heard w.state }) s
unfolding process_event
process_event-found res bytes ov result w s e =
    ap
      (λ o. elim o [
        | none ↦ s
        | some v ↦ process_found res (bytes == 0) ov result (record v { state = heard v.state }) s
      ])
      e

pub process_event-missing :
    (res : Bool) (bytes ov : ℕ) (result : Changes) (s : FsWatcher)
    → find_info ov s.infos ≡ none
    → process_event res bytes ov result s ≡ s
unfolding process_event
process_event-missing res bytes ov result s e =
    ap
      (λ o. elim o [
        | none ↦ s
        | some v ↦ process_found res (bytes == 0) ov result (record v { state = heard v.state }) s
      ])
      e

busy-one : (o : Option WatchInfo) → busy o < 2
busy-one none = omega arith
busy-one (some w) = elim w.state as (λ x. busy (some (record w { state = x })) < 2) [
  | initialized ↦ omega arith
  | listening ↦ omega arith
  | pending_close ↦ omega arith
]

pub complete-calls :
    (f : ℕ → ℕ) (ov : ℕ) (s : FsWatcher)
    → 0 < s.calls ov
    → IsAccounted f s
    → (j : ℕ) → (complete ov s).calls j + f j ≡ (if ov == j then 0 else busy (find_info j s.infos))
complete-calls f ov s waiting acc j =
    ground (arith, waiting, acc j, busy-one (find_info ov s.infos), acc ov)

pub process_event-IsAccounted :
    (f : ℕ → ℕ) (res : Bool) (bytes ov : ℕ) (result : Changes) (s : FsWatcher)
    → 0 < s.calls ov
    → IsAccounted f s
    → IsAccounted f (process_event res bytes ov result (complete ov s))
process_event-IsAccounted f res bytes ov result s waiting acc =
    elim (Option-cases (find_info ov s.infos)) [
      | inl e ↦ absurd (omega (arith, waiting, acc ov, ap busy e))
      | inr (w, e) ↦
          subst (IsAccounted f) (sym (process_event-found res bytes ov result w (complete ov s) e))
            (process_found-IsAccounted f res (bytes == 0) ov result w w (complete ov s) e
              (complete-calls f ov s waiting acc))
    ]

pub clean_one-IsAccounted :
    (f : ℕ → ℕ) (ov : ℕ) (s : FsWatcher)
    → 0 < s.calls ov
    → IsAccounted f s
    → IsAccounted f (clean_one ov (complete ov s))
clean_one-IsAccounted f ov s waiting acc j =
    ground (arith, complete-calls f ov s waiting acc j, find_info-erase_info ov j s.infos)

abbrev pub added : Bool → ℕ → ℕ → List ℕ → ℕ → FsWatcher → Option WatchInfo → Bool × FsWatcher
added res id ov path handle s o = elim o [
  | some w ↦ (false, s)
  | none ↦
      let w = new_info id ov path handle in
      let t = record s { infos = (ov, w) ∷ s.infos } in
      if s.stopped then (false, erased ov t) else listen_at res ov w (erased ov) t
]

pub add_locked-IsAccounted :
    (f : ℕ → ℕ) (res : Bool) (id ov : ℕ) (path : List ℕ) (handle : ℕ) (s : FsWatcher)
    → find_info ov s.infos ≡ none
    → IsAccounted f s
    → IsAccounted f (add_locked res id ov path handle s).1
unfolding add_locked find_info
add_locked-IsAccounted f res id ov path handle s e acc =
    subst (λ o. IsAccounted f (added res id ov path handle s o).1) (sym e) (at s.stopped)
  where
    w : WatchInfo
    w = new_info id ov path handle

    t : FsWatcher
    t = record s { infos = (ov, w) ∷ s.infos }

    acc_t : (j : ℕ) → t.calls j + f j ≡ (if ov == j then 0 else busy (find_info j t.infos))
    acc_t j = ground (arith, acc j, e)

    at :
        (b : Bool)
        → IsAccounted f (if b then (false, erased ov t) else listen_at res ov w (erased ov) t).1
    at true = λ j. ground (arith, acc_t j, find_info-erase_info ov j t.infos)
    at false =
        listen_at-IsAccounted f res ov w w (erased ov) t (λ u. refl) (λ u. refl) (ground arith)
          acc_t

stop-busy : (w : WatchInfo) → busy (some (stop w)) ≡ busy (some w)
stop-busy w =
    elim w.state
      as (λ x. busy (some (stop (record w { state = x }))) ≡ busy (some (record w { state = x }))) [
        | initialized ↦ refl
        | listening ↦ refl
        | pending_close ↦ refl
      ]

abbrev pub removed : ℕ → FsWatcher → Option WatchInfo → FsWatcher
removed ov s o = elim o [ none ↦ s | some w ↦ record s { infos = set_info ov (stop w) s.infos } ]

pub remove_directory-IsAccounted :
    (f : ℕ → ℕ) (ov : ℕ) (s : FsWatcher)
    → IsAccounted f s
    → IsAccounted f (remove_directory (some ov) s)
unfolding remove_directory
remove_directory-IsAccounted f ov s acc = elim (Option-cases (find_info ov s.infos)) [
  | inl e ↦ subst (λ o. IsAccounted f (removed ov s o)) (sym e) acc
  | inr (w, e) ↦
      subst (λ o. IsAccounted f (removed ov s o)) (sym e)
        (λ j.
          ground (arith, acc j, acc ov, e, find_info-set_info ov j (stop w) s.infos, stop-busy w))
]

pub stop_all-IsAccounted :
    (f : ℕ → ℕ) (s : FsWatcher) → IsAccounted f s → IsAccounted f (stop_event_loop s)
stop_all-IsAccounted f s acc j = elim (Option-cases (find_info j s.infos)) [
  | inl e ↦ ground (arith, acc j, find_info-stop_all j s.infos)
  | inr (w, e) ↦ ground (arith, acc j, find_info-stop_all j s.infos, stop-busy w)
]

-- The loop takes the failure of a call.
pub failed_call-IsAccounted :
    (ov : ℕ) (s : FsWatcher)
    → 0 < s.calls ov
    → IsAccounted (failures none) s
    → IsAccounted (failures (some ov)) (complete ov s)
failed_call-IsAccounted ov s waiting acc j = ground (arith, acc j, acc ov, waiting)
