-- ===== src/WorkQueue/Retries.antt =====
-- unitworkqueue.go, `Retry` and `Forget`: how often a unit is tried again.
use containerd_shim_systemd.Prelude.{
  ℕ, zero, suc, ◌+◌, ◌-◌, ◌≡◌, ◌∙◌, Bool, true, false, String, str_eq_refl, arith, if◌then◌else◌,
  min, ltb,
}
use containerd_shim_systemd.WorkQueue.{WorkQueue, add, add_after, retry, forget, with_count}

abbrev granted : Bool → ℕ
granted true = 1
granted false = 0

-- `k` failures of one unit in a row: how many of the retries are granted.
unfoldable pub retries_granted : WorkQueue → String → ℕ → ℕ → ℕ → ℕ → ℕ
unfolding retry
retries_granted q name n base max zero = 0
retries_granted q name n base max (suc k) =
    let (q', ok) = retry q name n base max in granted ok + retries_granted q' name n base max k

-- One retry: granted while the queue is open and the unit has failed less than `n` times; then the
-- failure is counted. `add_after` leaves the counts and the shutdown alone.
retry-counts :
    (q : WorkQueue) (name : String) (n base max : ℕ)
    → let r = retry q name n base max in
      (r.0.shutdown ≡ q.shutdown)
      × (r.0.failures name ≡ q.failures name + granted r.1)
      × (q.shutdown ≡ false → granted r.1 ≡ (if ltb (q.failures name) n then 1 else 0))
unfolding retry add_after add
retry-counts q name n base max = ground (arith, str_eq_refl name)

-- Of `k` failures in a row, before the shutdown, exactly so many are retried as bring the count of
-- failures up to `n`; the others are refused.
pub retries-bounded :
    (q : WorkQueue) (name : String) (n base max k : ℕ)
    → q.shutdown ≡ false
    → retries_granted q name n base max k ≡ min k (n - q.failures name)
unfolding retries_granted
retries-bounded q name n base max zero h = omega arith
retries-bounded q name n base max (suc k) h =
    let r = retry q name n base max in
    let (still, count, ok) = retry-counts q name n base max in
    let rest = retries-bounded r.0 name n base max k (still ∙ h) in
    ground (arith, rest, ok h, count)

-- After a `Forget` the unit has all its `n` retries again.
pub forget-retries :
    (q : WorkQueue) (name : String) (n base max k : ℕ)
    → q.shutdown ≡ false
    → retries_granted (forget q name) name n base max k ≡ min k n
unfolding forget
forget-retries q name n base max k h = ground (
  arith,
  retries-bounded (record q { failures = with_count q.failures name 0 }) name n base max k h,
  str_eq_refl name,
)
