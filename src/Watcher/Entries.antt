-- ===== src/Watcher/Entries.antt =====
-- The map of watches: what is found after a change of it.
use project_test_demo.Common.{
  ℕ, ◌==◌, if◌then◌else◌, false, none, some, List, [], ◌∷◌, ◌≡◌, refl, arith,
}
use project_test_demo.Watcher.{
  WatchInfo, find_info, set_info, erase_info, stop, stop_all, is_pending, is_pending_close,
}

pub find_info-set_info :
    (k j : ℕ) (v : WatchInfo) (m : List (ℕ × WatchInfo))
    → find_info j (set_info k v m)
      ≡ (if k == j then elim (find_info j m) [ some w ↦ some v | none ↦ none ] else find_info j m)
unfolding find_info set_info
find_info-set_info k j v [] = ground arith
find_info-set_info k j v ((i, w) ∷ m) = ground (arith, find_info-set_info k j v m)

pub find_info-erase_info :
    (k j : ℕ) (m : List (ℕ × WatchInfo))
    → find_info j (erase_info k m) ≡ (if k == j then none else find_info j m)
unfolding find_info erase_info
find_info-erase_info k j [] = ground arith
find_info-erase_info k j ((i, w) ∷ m) = ground (arith, find_info-erase_info k j m)

pub find_info-stop_all :
    (j : ℕ) (m : List (ℕ × WatchInfo))
    → find_info j (stop_all m) ≡ elim (find_info j m) [ some w ↦ some (stop w) | none ↦ none ]
unfolding find_info stop_all
find_info-stop_all j [] = refl
find_info-stop_all j ((i, w) ∷ m) = ground (arith, find_info-stop_all j m)

pub is_pending-find_info :
    (j : ℕ) (w : WatchInfo) (m : List (ℕ × WatchInfo))
    → is_pending m ≡ false
    → find_info j m ≡ some w
    → is_pending_close w.state ≡ false
unfolding find_info is_pending
is_pending-find_info j w [] h e = ground arith
is_pending-find_info j w ((i, v) ∷ m) h e = ground (arith, is_pending-find_info j w m)
