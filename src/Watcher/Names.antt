-- ===== src/Watcher/Names.antt =====
-- The long names of files.
use project_test_demo.Common.{
  ℕ, ◌<◌, false, Option, none, some, List, [], ◌∷◌, ◌++◌, length, ◌≡◌, ◌⊎◌,
}
use project_test_demo.Watcher.{WatchInfo, Changes}
use project_test_demo.Watcher.Buffer.{pop_nuls, contains}

-- The pair of the name n and the action a is one of the changes.
abbrev pub Reports : List ℕ → ℕ → Changes → Type 0
Reports n a [] = ⊥
Reports n a ((x, b) ∷ m) = ((n ≡ x) × (a ≡ b)) ⊎ Reports n a m

module _ (long_name : List ℕ → Option (List ℕ)) (w : WatchInfo) where
  -- The name n is the long name of x, and neither contains the path of the watch nor is as short.
  abbrev pub IsLongName : List ℕ → List ℕ → Type 0
  IsLongName x n =
      (text : List ℕ) × (long_name (w.path ++ b'/' ∷ x) ≡ some text)
      × (n ≡ pop_nuls text)
      × (contains w.path n ≡ false)
      × (length w.path < length n)

  -- A change is one of the others, or has the long name in place of its name there.
  abbrev pub IsFrom : Changes → List ℕ → ℕ → Type 0
  IsFrom plain n a = Reports n a plain ⊎ ((x : List ℕ) × Reports x a plain × IsLongName x n)

  abbrev AllFrom : Changes → Changes → Type 0
  AllFrom plain m = (n : List ℕ) (a : ℕ) → Reports n a m → IsFrom plain n a

  -- Two runs that both read outside of the buffer, or give changes of which the first are from the second.
  abbrev Both : Option Changes → Option Changes → Type 0
  Both none none = Unit
  Both (some m) (some plain) = AllFrom plain m
  Both none (some plain) = ⊥
  Both (some m) none = ⊥
