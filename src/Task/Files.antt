-- ===== src/Task/Files.antt =====
-- task_get_fd and task_put_fd of kernel/task.c.
use os_store.Base.{
  ℕ, zero, suc, ◌+◌, ◌<◌, ◌≤◌, ◌≡◌, refl, ap, ◌∙◌, Option, none, some, List, [], ◌∷◌, get_or,
  length, arith, Outcome, done, panic, ◌≢◌,
}
use os_store.Task.{Task, or_panic, fd_loop, behind_three, task_get_fd}

-- What `task_get_fd` returns for a file table.
pub data Fd (files : List (Option ℕ)) : Outcome ℕ → Type 0 where
  exceeded : ((j : ℕ) → 3 ≤ j → j < length files → get_or files j none ≢ none) → Fd files panic
  lowest :
      (fd : ℕ)
      → 3 ≤ fd
      → fd < length files
      → get_or files fd none ≡ none
      → ((j : ℕ) → 3 ≤ j → j < fd → get_or files j none ≢ none)
      → Fd files (done fd)

-- what the loop finds in `files`, whose first entry has number `i`
data Scan (files : List (Option ℕ)) (i : ℕ) : Option ℕ → Type 0 where
  all_used : ((k : ℕ) → k < length files → get_or files k none ≢ none) → Scan files i none
  free :
      (k fd : ℕ)
      → fd ≡ i + k
      → k < length files
      → get_or files k none ≡ none
      → ((j : ℕ) → j < k → get_or files j none ≢ none)
      → Scan files i (some fd)

some-ne-none : (f : ℕ) → some f ≢ none
some-ne-none f e = ground (arith, e)

fd_loop-Scan : (files : List (Option ℕ)) (i : ℕ) → Scan files i (fd_loop i files)
unfolding fd_loop
fd_loop-Scan [] i = all_used (λ k lt. absurd (omega arith))
fd_loop-Scan (none ∷ files) i =
    free 0 i (omega arith) (omega arith) refl (λ j lt. absurd (omega arith))
fd_loop-Scan (some f ∷ files) i = longer (fd_loop-Scan files (i + 1))
  where
    used :
        (k n : ℕ)
        → ((j : ℕ) → j < n → get_or files j none ≢ none)
        → k < suc n
        → get_or (some f ∷ files) k none ≢ none
    used zero n h lt = some-ne-none f
    used (suc k) n h lt = h k (omega arith)

    longer : {o : Option ℕ} → Scan files (i + 1) o → Scan (some f ∷ files) i o
    longer (all_used h) = all_used (λ k lt. used k (length files) h lt)
    longer (free k fd q lt e h) =
        free (suc k) fd (omega arith) (omega arith) e (λ j l. used j k h l)

-- `task_get_fd` of a task with the three standard files finds the lowest free descriptor from 3 on, and
-- panics exactly when all are in use.
pub task_get_fd-Fd : (task : Task) → 3 ≤ length task.files → Fd task.files (task_get_fd task)
unfolding task_get_fd
task_get_fd-Fd task h = go task.files h
  where
    up :
        (a b c : Option ℕ) (files : List (Option ℕ)) (n : ℕ)
        → ((j : ℕ) → j < n → get_or files j none ≢ none)
        → (j : ℕ) → 3 ≤ j
        → j < 3 + n
        → get_or (a ∷ b ∷ c ∷ files) j none ≢ none
    up a b c files n h zero lo lt = absurd (omega arith)
    up a b c files n h (suc zero) lo lt = absurd (omega arith)
    up a b c files n h (suc (suc zero)) lo lt = absurd (omega arith)
    up a b c files n h (suc (suc (suc j))) lo lt = h j (omega arith)

    go :
        (files : List (Option ℕ))
        → 3 ≤ length files
        → Fd files (or_panic (fd_loop 3 (behind_three files)))
    go [] h = absurd (omega arith)
    go (a ∷ []) h = absurd (omega arith)
    go (a ∷ b ∷ []) h = absurd (omega arith)
    go (a ∷ b ∷ c ∷ files) h = split (fd_loop-Scan files 3)
      where
        split : {o : Option ℕ} → Scan files 3 o → Fd (a ∷ b ∷ c ∷ files) (or_panic o)
        split (all_used h) =
            exceeded (λ j lo lt. up a b c files (length files) h j lo (omega arith))
        split (free k fd q lt e h) =
            lowest fd (omega arith) (omega arith)
              (let r : fd ≡ suc (suc (suc k)) = omega arith in
                ap (λ j. get_or (a ∷ b ∷ c ∷ files) j none) r ∙ e)
              (λ j lo l. up a b c files k h j lo (omega arith))
