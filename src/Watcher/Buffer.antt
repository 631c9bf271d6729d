-- ===== src/Watcher/Buffer.antt =====
-- rdc_fs_watcher.cpp, `process_notifications`: the buffer that Windows fills. A pointer into it is the
-- list of its bytes from there on, a std::wstring a list of 16-bit units, and `none` a read behind the
-- buffer.
use project_test_demo.Common.{
  ℕ, zero, suc, ◌+◌, ◌*◌, ◌/◌, ◌^◌, ltb, leb, ◌==◌, if◌then◌else◌, Bool, true, false, not, ◌&&◌,
  ◌||◌, Option, none, some, List, [], ◌∷◌, ◌++◌, length, drop, Bytes, equal,
}
use project_test_demo.Common.Maybe.{◌>>=◌}
use project_test_demo.Watcher.{WatchInfo, Changes}

-- A DWORD, and what is behind it.
unfoldable pub dword : Bytes → Option (ℕ × Bytes)
dword (a ∷ b ∷ c ∷ d ∷ p) = some (a + b * 2 ^ 8 + c * 2 ^ 16 + d * 2 ^ 24, p)
dword p = none

unfoldable pub wide_name : ℕ → Bytes → Option (List ℕ)
wide_name zero p = some []
wide_name (suc n) (a ∷ b ∷ p) = do rest ← wide_name n p; some ((a + b * 2 ^ 8) ∷ rest)
wide_name (suc n) p = none

-- The characters at the end that are NUL are removed.
abbrev pub pop_nuls : List ℕ → List ℕ
pop_nuls [] = []
pop_nuls (c ∷ cs) =
    let rest = pop_nuls cs in elim rest [ [] ↦ if c == 0 then [] else c ∷ [] | x ∷ xs ↦ c ∷ x ∷ xs ]

abbrev pub prefix : List ℕ → List ℕ → Bool
prefix [] s = true
prefix (d ∷ ds) [] = false
prefix (d ∷ ds) (c ∷ cs) = c == d && prefix ds cs

-- `s.find(sub) != npos`
abbrev pub contains : List ℕ → List ℕ → Bool
contains sub [] = prefix sub []
contains sub (c ∷ cs) = prefix sub (c ∷ cs) || contains sub cs

-- With what GetLongPathNameW writes for a path, or `none` where it fails.
unfoldable pub try_to_getlong_name : (List ℕ → Option (List ℕ)) → WatchInfo → List ℕ → List ℕ
try_to_getlong_name long_name w path_name = elim (long_name (w.path ++ b'/' ∷ path_name)) [
  | none ↦ path_name
  | some text ↦
      let long_path_name = pop_nuls text in
      if contains w.path long_path_name || leb (length long_path_name) (length w.path)
      then path_name
      else long_path_name
]

abbrev pub file_action_removed : ℕ
file_action_removed = 2

abbrev pub file_action_renamed_old_name : ℕ
file_action_renamed_old_name = 4

-- `notifications.emplace`
unfoldable pub emplace_change : List ℕ → ℕ → Changes → Changes
emplace_change name action [] = (name, action) ∷ []
emplace_change name action ((n, a) ∷ m) =
    if equal n name && a == action then (n, a) ∷ m else (n, a) ∷ emplace_change name action m

abbrev pub reported_name : (List ℕ → Option (List ℕ)) → WatchInfo → List ℕ → ℕ → List ℕ
reported_name long_name w name action =
    if not (action == file_action_removed) && not (action == file_action_renamed_old_name)
    then try_to_getlong_name long_name w name
    else name

-- The name and the action of the entry at the pointer, behind its `NextEntryOffset`.
unfoldable pub process_notification :
    (List ℕ → Option (List ℕ)) → WatchInfo → Bytes → Changes → Option Changes
process_notification long_name w p notifications = do
  (action, after_action) ← dword p
  (size, after_size) ← dword after_action
  name ← wide_name (size / 2) after_size
  some (emplace_change (reported_name long_name w name action) action notifications)

unfoldable pub notification_loop :
    (List ℕ → Option (List ℕ)) → WatchInfo → ℕ → Bytes → Changes → Option Changes
notification_loop long_name w zero p notifications = none
notification_loop long_name w (suc n) p notifications = do
  (next_entry_offset, fields) ← dword p
  added ← process_notification long_name w fields notifications
  elim (ltb 0 next_entry_offset) [
    | false ↦ some added
    | true ↦ notification_loop long_name w n (drop next_entry_offset p) added
  ]

-- Every turn but the last moves the pointer on.
abbrev pub process_notifications : (List ℕ → Option (List ℕ)) → WatchInfo → Bytes → Option Changes
process_notifications long_name w buffer = notification_loop long_name w (length buffer) buffer []
