-- ===== src/Zcode/Tally.antt =====
-- The counts of a snapshot of agent/internal/collector/zcode/collector.go, and the tasks they are of.
use ai_control_hud.Prelude.{
  ℕ, zero, suc, ◌+◌, ◌-◌, ◌≤◌, ◌≡◌, refl, ap, ◌∙◌, ℤ, pos, negsuc, ◌+ℤ◌, ◌≤ℤ◌, Bool, List, [], ◌∷◌,
  ◌++◌, length, count, count-append, take, arith,
}
use ai_control_hud.Domain.{TaskStatus, TaskSummary, ZCodeSummary, task_eq}
use ai_control_hud.Zcode.Counts.{
  Snapshot, add_status_count, count_statuses, statuses_of, summarize_tasks, no_counts, fill,
  merge_two,
}
use ai_control_hud.Zcode.Loops.{fill-take}

-- How often a status stands in a list.
abbrev pub of_status : TaskStatus → List TaskStatus → ℕ
of_status s = count (λ t. task_eq t s)

-- The counts of a list of statuses.
abbrev pub tally : List TaskStatus → ZCodeSummary
tally ss = record {
  running = pos (of_status TaskStatus.running ss);
  waiting = pos (of_status TaskStatus.waiting ss);
  failed = pos (of_status TaskStatus.failed ss);
  completed = pos (of_status TaskStatus.completed ss);
}

abbrev counts_of : ℕ → ℕ → ℕ → ℕ → ZCodeSummary
counts_of a b c d = record { running = pos a; waiting = pos b; failed = pos c; completed = pos d }

pos-add : (a b : ℕ) → pos a +ℤ pos b ≡ pos (a + b)
pos-add a b = ground arith

-- From any counts, each grows by the statuses of its kind.
counts_of-count :
    (ss : List TaskStatus) (a b c d : ℕ)
    → count_statuses (counts_of a b c d) ss
      ≡ counts_of
          (a + of_status TaskStatus.running ss)
          (b + of_status TaskStatus.waiting ss)
          (c + of_status TaskStatus.failed ss)
          (d + of_status TaskStatus.completed ss)
unfolding count_statuses add_status_count
counts_of-count [] a b c d = ground arith
counts_of-count (TaskStatus.running ∷ ss) a b c d =
    ap
      (λ x.
        count_statuses (record { running = x; waiting = pos b; failed = pos c; completed = pos d })
          ss)
      (pos-add a 1)
    ∙ counts_of-count ss (a + 1) b c d
    ∙ ground arith
counts_of-count (TaskStatus.waiting ∷ ss) a b c d =
    ap
      (λ x.
        count_statuses (record { running = pos a; waiting = x; failed = pos c; completed = pos d })
          ss)
      (pos-add b 1)
    ∙ counts_of-count ss a (b + 1) c d
    ∙ ground arith
counts_of-count (TaskStatus.failed ∷ ss) a b c d =
    ap
      (λ x.
        count_statuses (record { running = pos a; waiting = pos b; failed = x; completed = pos d })
          ss)
      (pos-add c 1)
    ∙ counts_of-count ss a b (c + 1) d
    ∙ ground arith
counts_of-count (TaskStatus.completed ∷ ss) a b c d =
    ap
      (λ x.
        count_statuses (record { running = pos a; waiting = pos b; failed = pos c; completed = x })
          ss)
      (pos-add d 1)
    ∙ counts_of-count ss a b c (d + 1)
    ∙ ground arith
counts_of-count (TaskStatus.unknown ∷ ss) a b c d = counts_of-count ss a b c d
counts_of-count (TaskStatus.other s ∷ ss) a b c d = counts_of-count ss a b c d

pub count_statuses-tally : (ss : List TaskStatus) → count_statuses no_counts ss ≡ tally ss
count_statuses-tally ss = counts_of-count ss 0 0 0 0 ∙ ground arith

-- No count of one is above that of the other.
abbrev pub Below : ZCodeSummary → ZCodeSummary → Type 0
Below a b =
    (a.running ≤ℤ b.running)
    × (a.waiting ≤ℤ b.waiting)
    × (a.failed ≤ℤ b.failed)
    × (a.completed ≤ℤ b.completed)

-- The counts tell of every task that is listed.
abbrev pub Covers : ZCodeSummary → List TaskSummary → Type 0
Covers summary tasks = Below (tally (statuses_of tasks)) summary

pub summarize_tasks-Covers : (ts : List TaskSummary) → Covers (summarize_tasks ts) ts
unfolding summarize_tasks
summarize_tasks-Covers ts =
    rw (count_statuses-tally (statuses_of ts)) (omega arith, omega arith, omega arith, omega arith)

statuses_of-append :
    (a b : List TaskSummary) → statuses_of (a ++ b) ≡ statuses_of a ++ statuses_of b
statuses_of-append [] b = refl
statuses_of-append (t ∷ ts) b = ap (λ l. t.status ∷ l) (statuses_of-append ts b)

pub statuses_of-take :
    (n : ℕ) (a : List TaskSummary) → statuses_of (take n a) ≡ take n (statuses_of a)
statuses_of-take zero a = refl
statuses_of-take (suc n) [] = refl
statuses_of-take (suc n) (t ∷ ts) = ap (λ l. t.status ∷ l) (statuses_of-take n ts)

pub count-take-le :
    {A : Type 0} (p : A → Bool) (n : ℕ) (xs : List A) → count p (take n xs) ≤ count p xs
count-take-le p zero xs = omega arith
count-take-le p (suc n) [] = omega arith
count-take-le p (suc n) (x ∷ xs) = ground (arith, count-take-le p n xs)

of_status-fill :
    (s : TaskStatus) (limit : ℕ) (a b : List TaskSummary)
    → of_status s (statuses_of (fill limit a b))
      ≤ of_status s (statuses_of a) + of_status s (statuses_of b)
of_status-fill s limit a b =
    rw
      (
        fill-take limit a b,
        statuses_of-append a (take (limit - length a) b),
        statuses_of-take (limit - length a) b,
        count-append (λ t. task_eq t s) (statuses_of a) (take (limit - length a) (statuses_of b)),
      )
      (omega (arith, count-take-le (λ t. task_eq t s) (limit - length a) (statuses_of b)))

le-add : (m n k : ℕ) (x y : ℤ) → k ≤ m + n → pos m ≤ℤ x → pos n ≤ℤ y → pos k ≤ℤ (x +ℤ y)
le-add m n k (pos x) (pos y) h p q = ground arith
le-add m n k (pos x) (negsuc y) h p q = ground arith
le-add m n k (negsuc x) y h p q = ground arith

pub merge_two-Covers :
    (a b : Snapshot) (limit : ℕ)
    → Covers a.summary a.tasks
    → Covers b.summary b.tasks
    → Covers (merge_two a b limit).summary (merge_two a b limit).tasks
unfolding merge_two
merge_two-Covers a b limit (h1, h2, h3, h4) (k1, k2, k3, k4) = (
  le-add _ _ _ a.summary.running b.summary.running
      (of_status-fill TaskStatus.running limit a.tasks b.tasks) h1 k1,
  le-add _ _ _ a.summary.waiting b.summary.waiting
      (of_status-fill TaskStatus.waiting limit a.tasks b.tasks) h2 k2,
  le-add _ _ _ a.summary.failed b.summary.failed
      (of_status-fill TaskStatus.failed limit a.tasks b.tasks) h3 k3,
  le-add _ _ _ a.summary.completed b.summary.completed
      (of_status-fill TaskStatus.completed limit a.tasks b.tasks) h4 k4,
)
