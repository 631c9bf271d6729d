-- ===== src/Watcher/Layout.antt =====
-- Entries in the buffer, laid out as FILE_NOTIFY_INFORMATION.
use project_test_demo.Common.{
  ℕ, zero, suc, ◌+◌, ◌*◌, ◌/◌, ◌%◌, ◌^◌, ◌<◌, ltb, Bool, true, false, Option, some, List, [], ◌∷◌,
  ◌++◌, length, length-append, drop, drop-length, Bytes, ◌≡◌, refl, ap, ◌∙◌, arith,
}
use project_test_demo.Common.Maybe.{◌>>=◌}
use project_test_demo.Watcher.{WatchInfo, Changes}
use project_test_demo.Watcher.Buffer.{
  dword, wide_name, emplace_change, reported_name, process_notification, notification_loop,
  process_notifications,
}

-- An entry with its name, the action, and the bytes between it and the next one.
pub record Notice : Type 0 where
  pub name : List ℕ
  pub action : ℕ
  pub between : Bytes

-- A number of four bytes, the low one first.
abbrev four_bytes : ℕ → Bytes → Bytes
four_bytes v p = v % 256 ∷ v / 2 ^ 8 % 256 ∷ v / 2 ^ 16 % 256 ∷ v / 2 ^ 24 % 256 ∷ p

abbrev name_bytes : List ℕ → Bytes → Bytes
name_bytes [] p = p
name_bytes (c ∷ cs) p = c % 256 ∷ c / 2 ^ 8 ∷ name_bytes cs p

abbrev size_of : Notice → ℕ
size_of e = 12 + length e.name * 2 + length e.between

abbrev fields : Notice → Bytes → Bytes
fields e p =
    four_bytes e.action (four_bytes (length e.name * 2) (name_bytes e.name (e.between ++ p)))

-- The entries, each with the way to the next one, which for the last is 0.
abbrev pub laid_out : Notice → List Notice → Bytes → Bytes
laid_out e [] p = four_bytes 0 (fields e p)
laid_out e (f ∷ es) p = four_bytes (size_of e) (fields e (laid_out f es p))

-- Numbers fit in their four bytes.
abbrev pub Fits : Notice → Type 0
Fits e = (e.action < 2 ^ 32) × (size_of e < 2 ^ 32)

abbrev pub AllFit : List Notice → Type 0
AllFit [] = Unit
AllFit (e ∷ es) = Fits e × AllFit es

dword-four_bytes : (v : ℕ) (p : Bytes) → v < 2 ^ 32 → dword (four_bytes v p) ≡ some (v, p)
unfolding dword
dword-four_bytes v p h = ap (λ x. some (x, p)) (omega arith)

wide_name-name_bytes : (cs : List ℕ) (p : Bytes) → wide_name (length cs) (name_bytes cs p) ≡ some cs
unfolding wide_name
wide_name-name_bytes [] p = refl
wide_name-name_bytes (c ∷ cs) p =
    let unit : c % 256 + c / 2 ^ 8 * 2 ^ 8 ≡ c = omega arith in
    ap (λ r. r >>= λ rest. some ((c % 256 + c / 2 ^ 8 * 2 ^ 8) ∷ rest)) (wide_name-name_bytes cs p)
    ∙ ap (λ x. some (x ∷ cs)) unit

length-name_bytes : (cs : List ℕ) (p : Bytes) → length (name_bytes cs p) ≡ length cs * 2 + length p
length-name_bytes [] p = omega arith
length-name_bytes (c ∷ cs) p = omega (arith, length-name_bytes cs p)

drop-name_bytes :
    (cs : List ℕ) (b p : Bytes) → drop (length cs * 2 + length b) (name_bytes cs (b ++ p)) ≡ p
drop-name_bytes [] b p = drop-length (0 + length b) b p (omega arith)
drop-name_bytes (c ∷ cs) b p =
    let size : suc (length cs) * 2 + length b ≡ suc (suc (length cs * 2 + length b)) =
      omega arith in
    ap (λ n. drop n (name_bytes (c ∷ cs) (b ++ p))) size ∙ drop-name_bytes cs b p

-- The way to the next entry leads to it.
drop-fields : (e : Notice) (v : ℕ) (p : Bytes) → drop (size_of e) (four_bytes v (fields e p)) ≡ p
drop-fields e v p =
    let n : ℕ = length e.name * 2 + length e.between in
    let size : size_of e ≡ suc (suc (suc (suc (suc (suc (suc (suc (suc (suc (suc (suc n))))))))))) =
      omega arith in
    ap (λ k. drop k (four_bytes v (fields e p))) size ∙ drop-name_bytes e.name e.between p

length-laid_out : (e : Notice) (es : List Notice) (p : Bytes) → length es < length (laid_out e es p)
length-laid_out e [] p = omega arith
length-laid_out e (d ∷ es) p = omega (
  arith,
  length-laid_out d es p,
  length-name_bytes e.name (e.between ++ laid_out d es p),
  length-append e.between (laid_out d es p),
)

module _ (long_name : List ℕ → Option (List ℕ)) (w : WatchInfo) where
  abbrev pub noted : Notice → Changes → Changes
  noted e m = emplace_change (reported_name long_name w e.name e.action) e.action m

  -- The names and actions of entries, each pair once.
  abbrev pub all_noted : List Notice → Changes → Changes
  all_noted [] m = m
  all_noted (e ∷ es) m = all_noted es (noted e m)

  process_notification-fields :
      (e : Notice) (p : Bytes) (m : Changes)
      → Fits e
      → process_notification long_name w (fields e p) m ≡ some (noted e m)
  unfolding process_notification
  process_notification-fields e p m (small, fits) =
      let rest : Bytes = name_bytes e.name (e.between ++ p) in
      let units : length e.name * 2 / 2 ≡ length e.name = omega arith in
      let named =
        λ (a : ℕ) (name : List ℕ). some (emplace_change (reported_name long_name w name a) a m) in
      ap (λ r. r >>= λ (a, p1). dword p1 >>= λ (size, p2). wide_name (size / 2) p2 >>= named a)
        (dword-four_bytes e.action (four_bytes (length e.name * 2) rest) small)
      ∙ ap (λ r. r >>= λ (size, p2). wide_name (size / 2) p2 >>= named e.action)
          (dword-four_bytes (length e.name * 2) rest (omega arith))
      ∙ ap (λ k. wide_name k rest >>= named e.action) units
      ∙ ap (λ r. r >>= named e.action) (wide_name-name_bytes e.name (e.between ++ p))

  notification_loop-laid_out :
      (n : ℕ) (e : Notice) (es : List Notice) (p : Bytes) (m : Changes)
      → Fits e
      → AllFit es
      → length es < n
      → notification_loop long_name w n (laid_out e es p) m ≡ some (all_noted (e ∷ es) m)
  unfolding notification_loop
  notification_loop-laid_out zero e es p m f fs h = absurd (omega arith)
  notification_loop-laid_out (suc n) e [] p m f fs h =
      let buffer : Bytes = laid_out e [] p in
      let next : ℕ → Changes → Option Changes = λ k added. elim (ltb 0 k) [
        | false ↦ some added
        | true ↦ notification_loop long_name w n (drop k buffer) added
      ] in
      ap (λ r. r >>= λ (k, q). process_notification long_name w q m >>= next k)
        (dword-four_bytes 0 (fields e p) (omega arith))
      ∙ ap (λ r. r >>= next 0) (process_notification-fields e p m f)
  notification_loop-laid_out (suc n) e (d ∷ es) p m f (g, gs) h =
      let rest : Bytes = laid_out d es p in
      let buffer : Bytes = laid_out e (d ∷ es) p in
      let next : ℕ → Changes → Option Changes = λ k added. elim (ltb 0 k) [
        | false ↦ some added
        | true ↦ notification_loop long_name w n (drop k buffer) added
      ] in
      let onward : ltb 0 (size_of e) ≡ true = ground arith in
      ap (λ r. r >>= λ (k, q). process_notification long_name w q m >>= next k)
        (dword-four_bytes (size_of e) (fields e rest) (f.1))
      ∙ ap (λ r. r >>= next (size_of e)) (process_notification-fields e rest m f)
      ∙ ap
          (λ (b : Bool). elim b [
            | false ↦ some (noted e m)
            | true ↦ notification_loop long_name w n (drop (size_of e) buffer) (noted e m)
          ])
          onward
      ∙ ap (λ q. notification_loop long_name w n q (noted e m)) (drop-fields e (size_of e) rest)
      ∙ notification_loop-laid_out n d es p (noted e m) g gs (omega arith)

  -- Of a buffer in which entries are laid out one behind the other, whatever bytes stand between them
  -- and behind them, the names and actions of all entries are read, in their order, each pair once.
  pub process_notifications-laid_out :
      (e : Notice) (es : List Notice) (p : Bytes)
      → Fits e
      → AllFit es
      → process_notifications long_name w (laid_out e es p) ≡ some (all_noted (e ∷ es) [])
  process_notifications-laid_out e es p f fs =
      notification_loop-laid_out (length (laid_out e es p)) e es p [] f fs (length-laid_out e es p)
