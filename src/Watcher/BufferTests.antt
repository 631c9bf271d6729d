-- ===== src/Watcher/BufferTests.antt =====
-- A buffer with two entries.
use project_test_demo.Common.{
  ℕ, Option, none, some, List, [], ◌∷◌, ◌++◌, codes, equal, Bytes, ◌≡◌, refl, arith,
}
use project_test_demo.Watcher.{Changes, WatchInfo, new_info}
use project_test_demo.Watcher.Buffer.{
  dword, wide_name, emplace_change, process_notification, notification_loop, process_notifications,
  try_to_getlong_name,
}
use project_test_demo.Watcher.Layout.{Notice, laid_out, all_noted, process_notifications-laid_out}

abbrev folder : WatchInfo
folder = new_info 7 40 (codes "C:/d") 3

abbrev made : Notice
made = record { name = codes "ab"; action = 1; between = [] }

abbrev gone : Notice
gone = record { name = codes "c"; action = 2; between = 0 ∷ 0 ∷ [] }

abbrev buffer : Bytes
buffer = laid_out made (gone ∷ []) (9 ∷ 9 ∷ [])

abbrev no_names : List ℕ → Option (List ℕ)
no_names x = none

-- A name below another folder, which is what the first text is in short.
abbrev elsewhere : List ℕ → Option (List ℕ)
elsewhere x = some (codes "C:/documents/ab" ++ (0 ∷ []))

abbrev inside : List ℕ → Option (List ℕ)
inside x = some (codes "C:/d/abcdef" ++ (0 ∷ []))

two_read :
    process_notifications no_names folder buffer ≡ some ((codes "ab", 1) ∷ (codes "c", 2) ∷ [])
unfolding dword wide_name emplace_change process_notification notification_loop try_to_getlong_name
    equal
two_read = refl

short_path :
    try_to_getlong_name elsewhere (record folder { path = codes "C:/do~1" }) (codes "ab")
    ≡ codes "C:/documents/ab"
unfolding try_to_getlong_name
short_path = refl

process_notifications-laid_out_example :
    process_notifications no_names folder buffer
    ≡ some (all_noted no_names folder (made ∷ gone ∷ []) [])
process_notifications-laid_out_example =
    process_notifications-laid_out no_names folder made (gone ∷ []) (9 ∷ 9 ∷ [])
      (omega arith, omega arith) ((omega arith, omega arith), tt)

-- A long name below the path is not taken.
long_below : try_to_getlong_name inside folder (codes "ab") ≡ codes "ab"
unfolding try_to_getlong_name
long_below = refl

abbrev short_folder : WatchInfo
short_folder = record folder { path = codes "C:/do~1" }

abbrev reported : Changes
reported = (codes "C:/documents/ab", 1) ∷ (codes "c", 2) ∷ []
