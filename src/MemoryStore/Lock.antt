-- ===== src/MemoryStore/Lock.antt =====
-- The lock of the store in memory: `transaction`, `acquire` and `release`. Tasks arrive and finish in
-- any order that the event loop chooses.
use info_room_reservation_si.Prelude.{
  ℕ, suc, ◌≡◌, refl, sym, ◌∙◌, ap, ◌⊎◌, inl, inr, Bool, true, false, Option, none, some, List, [],
  ◌∷◌, ◌++◌, append-nil, append_assoc, arith, length, length-append, if◌then◌else◌,
}

pub record Lock : Type 0 where
  pub locked : Bool
  pub queue : List ℕ

abbrev pub unlocked : Lock
unlocked = record { locked = false; queue = [] }

-- A task gets the lock at once, or waits at the end of the queue.
unfoldable pub acquire : ℕ → Lock → Bool × Lock
acquire task lock =
    if lock.locked
    then (false, record lock { queue = lock.queue ++ task ∷ [] })
    else (true, record lock { locked = true })

abbrev pub shift_queue : List ℕ → Lock → Option ℕ × Lock
shift_queue [] lock = (none, record lock { locked = false })
shift_queue (next ∷ rest) lock = (some next, record lock { queue = rest })

-- The first waiting task takes the lock over, which stays locked.
unfoldable pub release : Lock → Option ℕ × Lock
release lock = shift_queue lock.queue lock

-- The lock with the tasks inside a transaction, and all that have arrived and have started so far.
pub record System : Type 0 where
  pub lock : Lock
  pub running : List ℕ
  pub arrived : List ℕ
  pub started : List ℕ

abbrev pub enter : Bool × Lock → ℕ → System → System
enter (true, lock) task s = record {
  lock = lock;
  running = task ∷ s.running;
  arrived = s.arrived ++ task ∷ [];
  started = s.started ++ task ∷ [];
}
enter (false, lock) task s = record s { lock = lock; arrived = s.arrived ++ task ∷ [] }

abbrev pub leave : Option ℕ × Lock → List ℕ → System → System
leave (none, lock) others s = record s { lock = lock; running = others }
leave (some next, lock) others s = record s {
  lock = lock;
  running = next ∷ others;
  started = s.started ++ next ∷ [];
}

-- A transaction begins with `acquire`, and ends with `release` however its operation ends.
pub data Step (s : System) : System → Type 0 where
  arrive : (task : ℕ) → Step s (enter (acquire task s.lock) task s)
  finish :
      (before : List ℕ) (task : ℕ) (after : List ℕ)
      → s.running ≡ before ++ task ∷ after
      → Step s (leave (release s.lock) (before ++ after) s)

pub data Reach (s : System) : System → Type 0 where
  here : Reach s s
  more : {t u : System} → Reach s t → Step t u → Reach s u

abbrev pub idle : System
idle = record { lock = unlocked; running = []; arrived = []; started = [] }

-- One task runs while the lock is taken, none otherwise, and then none waits. What has arrived has
-- started or waits, in the order of arrival.
pub record IsOrderly (s : System) : Type 0 where
  pub held :
      ((s.lock.locked ≡ true) × (length s.running ≡ 1))
      ⊎ ((s.lock.locked ≡ false) × (length s.running ≡ 0) × (s.lock.queue ≡ []))
  pub fair : s.arrived ≡ s.started ++ s.lock.queue

arrive-IsOrderly :
    (task : ℕ) (s : System) → IsOrderly s → IsOrderly (enter (acquire task s.lock) task s)
unfolding acquire
arrive-IsOrderly task s v = record {
  held = ground arith;
  fair = ground (
    arith,
    append_assoc s.started s.lock.queue (task ∷ []),
    append-nil s.started,
    append-nil (s.started ++ task ∷ []),
  );
}

module _ (before : List ℕ) (task : ℕ) (after : List ℕ) (s : System)
    (e : s.running ≡ before ++ task ∷ after) (v : IsOrderly s) where
  none_left : (s.lock.locked ≡ true) × (length (before ++ after) ≡ 0)
  none_left =
      ground (arith, ap length e, length-append before (task ∷ after), length-append before after)

  pass_on :
      (queue : List ℕ)
      → s.lock.queue ≡ queue
      → IsOrderly (leave (shift_queue queue s.lock) (before ++ after) s)
  pass_on [] q = record { held = inr (refl, none_left.1, q); fair = v.fair }
  pass_on (next ∷ rest) q = record {
    held = inl (none_left.0, ap suc none_left.1);
    fair = v.fair ∙ ap (◌++◌ s.started) q ∙ sym (append_assoc s.started (next ∷ []) rest);
  }

  finish-IsOrderly : IsOrderly (leave (release s.lock) (before ++ after) s)
  unfolding release
  finish-IsOrderly = pass_on s.lock.queue refl

Step-IsOrderly : {s t : System} → Step s t → IsOrderly s → IsOrderly t
Step-IsOrderly {s} (arrive task) v = arrive-IsOrderly task s v
Step-IsOrderly {s} (finish before task after e) v = finish-IsOrderly before task after s e v

-- Whatever the order in which transactions begin and end: at most one runs, exactly one while the
-- lock is taken, none waits while it is free, and they start in the order in which they came.
pub Reach-IsOrderly : {s : System} → Reach idle s → IsOrderly s
Reach-IsOrderly here = record { held = inr (refl, refl, refl); fair = refl }
Reach-IsOrderly (more r step) = Step-IsOrderly step (Reach-IsOrderly r)
