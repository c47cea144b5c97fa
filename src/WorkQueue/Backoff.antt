-- ===== src/WorkQueue/Backoff.antt =====
-- unitworkqueue.go, `backoff`. A `time.Duration` and an `int` are int64, taken as the uint64 with
-- the same bits: negative from 2 ^ 63 on.
use native.Mathlib.Nat.{one-le-pow, pow-le-pow_right}
use containerd_shim_systemd.Prelude.{
  ℕ, zero, suc, ◌+◌, ◌*◌, ◌%◌, ◌^◌, ◌≤◌, ◌<◌, ◌≡◌, subst, refl, Bool, true, false, ◌&&◌, ◌||◌, not,
  if◌then◌else◌, ltb, leb, ◌==◌, arith, min, ◌∙◌, ap, sym, Bool-cases, inl, inr,
}

-- `x > 0`.
abbrev pub is_positive : ℕ → Bool
is_positive x = ltb 0 x && ltb x 9223372036854775808

-- `x < 0`.
abbrev pub is_negative : ℕ → Bool
is_negative x = leb 9223372036854775808 x

-- `x < y`, signed.
abbrev pub signed_lt : ℕ → ℕ → Bool
signed_lt x y =
    ltb ((x + 9223372036854775808) % 18446744073709551616)
      ((y + 9223372036854775808) % 18446744073709551616)

-- `base << attempts`.
shifted : ℕ → ℕ → ℕ
shifted base attempts = base * 2 ^ attempts % 18446744073709551616

-- The cap: `d <= 0 || d > max`.
capped : ℕ → ℕ → ℕ
capped d max = if not (is_positive d) || signed_lt max d then max else d

unfoldable pub backoff : ℕ → ℕ → ℕ → ℕ
unfolding shifted capped
backoff attempts base max =
    let a = if is_negative attempts then 0 else attempts in
    if ltb 62 a then max else capped (shifted base a) max

-- The retry policy of the event reactor, in nanoseconds (unitevents.go).
abbrev pub reconcile_max_retries : ℕ
reconcile_max_retries = 5

abbrev pub reconcile_retry_base : ℕ
reconcile_retry_base = 200000000

abbrev pub reconcile_retry_max : ℕ
reconcile_retry_max = 10000000000

capped-eq_min :
    (d max : ℕ)
    → 0 < d
    → d < 18446744073709551616
    → max < 9223372036854775808
    → capped (d % 18446744073709551616) max ≡ min d max
unfolding capped
capped-eq_min d max p b m = ground arith

backoff-eq_capped :
    (a base max : ℕ)
    → a ≤ 62
    → backoff a base max ≡ capped (base * 2 ^ a % 18446744073709551616) max
unfolding backoff
backoff-eq_capped a base max h =
    let e : is_negative a ≡ false = ground arith in
    let f : ltb 62 a ≡ false = ground arith in rw (e, f, backoff) refl

backoff_past : (a base max : ℕ) → 62 < a → a < 9223372036854775808 → backoff a base max ≡ max
unfolding backoff
backoff_past a base max h k =
    let e : is_negative a ≡ false = ground arith in
    let f : ltb 62 a ≡ true = ground arith in rw (e, f, backoff) refl

-- As long as the doubled base fits in 64 bits, the wait is the base doubled `a` times, or the cap
-- if that is less.
pub backoff-eq_min :
    (a base max : ℕ)
    → a ≤ 62
    → 0 < base
    → base * 2 ^ a < 18446744073709551616
    → max < 9223372036854775808
    → backoff a base max ≡ min (base * 2 ^ a) max
backoff-eq_min a base max h b s m =
    let p : 1 ≤ 2 ^ a = one-le-pow a 2 (omega arith) in
    let q : 0 < base * 2 ^ a = grind arith in
    backoff-eq_capped a base max h ∙ capped-eq_min (base * 2 ^ a) max q s m

-- No wait is longer than the cap, nor is it 0, whatever overflows.
pub backoff_bounds :
    (a base max : ℕ)
    → 0 < max
    → max < 9223372036854775808
    → (0 < backoff a base max) × (backoff a base max ≤ max)
unfolding backoff
backoff_bounds a base max p m = ground arith

abbrev policy_ok : ℕ → Bool
policy_ok a =
    backoff a reconcile_retry_base reconcile_retry_max
    == min (reconcile_retry_base * 2 ^ a) reconcile_retry_max

-- The waits of the first attempts are evaluated, from the last of them down.
policy_upto : ℕ → Bool
policy_upto zero = policy_ok zero
policy_upto (suc n) = if policy_ok (suc n) then policy_upto n else false

policy_at : (last a : ℕ) → policy_upto last ≡ true → a ≤ last → policy_ok a ≡ true
unfolding policy_upto
policy_at zero a h le = let e : zero ≡ a = omega arith in subst (λ b. policy_ok b ≡ true) e h
policy_at (suc n) a h le = elim (Bool-cases (a == suc n)) [
  | inl same ↦
      let e : suc n ≡ a = ground arith in subst (λ b. policy_ok b ≡ true) e (ground (arith, h))
  | inr other ↦ policy_at n a (ground (arith, h)) (ground (arith, le))
]

first_waits : policy_upto 62 ≡ true
unfolding policy_upto backoff
first_waits = refl

-- With the reactor's base and cap no count of attempts overflows: the waits are 0.2 s, 0.4 s, and so
-- on up to 10 s.
pub reconcile-backoff :
    (a : ℕ)
    → a < 9223372036854775808
    → backoff a reconcile_retry_base reconcile_retry_max
      ≡ min (reconcile_retry_base * 2 ^ a) reconcile_retry_max
reconcile-backoff a h = elim (Bool-cases (ltb a 63)) [
  | inl small ↦ ground (arith, policy_at 62 a first_waits)
  | inr large ↦
      let past : 62 < a = ground arith in
      let big : 9223372036854775808 ≤ 2 ^ a = pow-le-pow_right {n = 2} (omega arith) past in
      backoff_past a reconcile_retry_base reconcile_retry_max past h ∙ omega arith
]

wrap_lem : (k q r t m : ℕ) → q * t ≡ m → (k * q + r) * t ≡ r * t + m * k
wrap_lem k q r t m e = grind arith

-- Where the doubled base does not fit, the shift drops the multiples of 2 ^ 64: for `a` of at most 62
-- failed attempts, and any base `k * 2 ^ (64 - a) + r` that a duration holds, the wait is that for the
-- base `r`, whatever the cap is.
pub backoff_wraps :
    (a k q r max : ℕ)
    → a ≤ 62
    → q * 2 ^ a ≡ 18446744073709551616
    → k * q + r < 9223372036854775808
    → backoff a (k * q + r) max ≡ backoff a r max
backoff_wraps a k q r max h e fits =
    let wrapped : (k * q + r) * 2 ^ a % 18446744073709551616 ≡ r * 2 ^ a % 18446744073709551616 =
      rw (wrap_lem k q r (2 ^ a) 18446744073709551616 e) (omega arith) in
    backoff-eq_capped a (k * q + r) max h
    ∙ (ap (λ d. capped d max) wrapped ∙ sym (backoff-eq_capped a r max h))
