-- ===== src/Scheduler/Config/Backoff.antt =====
-- manager.go: what `normalize` guarantees, and the retry delay in closed form.
use native.Mathlib.Nat.{pow-suc}
use go_xidized.Prelude.{
  ℕ, zero, suc, ◌*◌, ◌^◌, ◌≤◌, ◌<◌, ◌≡◌, refl, ℤ, pos, ◌-◌, Text, true, positive, arith, quot, ap,
  is_empty, false, min,
}
use go_xidized.Types.{minute}
use go_xidized.Types.Floats.{is_rate, float_of, or_float-is_rate, or_float_kept}
use go_xidized.Scheduler.Config.{Config, or_default, normalize, double, backoff_loop, backoff}

-- What the rest of the manager relies on.
pub record IsNormal (c : Config) : Type 0 where
  pub queue_size : positive c.queue_size ≡ true
  pub global : positive c.max_global_concurrency ≡ true
  pub vendor : positive c.max_per_vendor_concurrency ≡ true
  pub group : positive c.max_per_group_concurrency ≡ true
  pub site : positive c.max_per_site_concurrency ≡ true
  pub connections : is_rate c.max_new_connections ≡ true
  pub attempts : positive c.max_attempts ≡ true
  pub initial : positive c.backoff_initial ≡ true
  pub limit : positive c.backoff_max ≡ true
  pub threshold : positive c.circuit_failure_threshold ≡ true
  pub cooldown : positive c.circuit_open_duration ≡ true
  pub ttl : positive c.lease_ttl ≡ true
  pub renew : positive c.lease_renew_interval ≡ true

or_default-positive : (v d : ℤ) → positive d ≡ true → positive (or_default v d) ≡ true
or_default-positive v d h = ground arith

module _ (id : Text) (c : Config) where
  global_positive : positive (or_default c.max_global_concurrency (pos 1)) ≡ true
  global_positive = or_default-positive c.max_global_concurrency (pos 1) refl

  ttl_third_positive : (t : ℤ) → positive (or_default (quot t 3) (pos minute)) ≡ true
  ttl_third_positive t = or_default-positive (quot t 3) (pos minute) refl

  -- Whatever the configuration, every limit and duration of the normalized one is positive, and so is its
  -- rate of new connections, which may be infinite, unless it is not a number (a NaN).
  pub normalize-IsNormal : IsNormal (normalize id c)
  unfolding normalize
  normalize-IsNormal = record {
    queue_size = or_default-positive c.queue_size _ refl;
    global = global_positive;
    vendor = or_default-positive c.max_per_vendor_concurrency _ global_positive;
    group = or_default-positive c.max_per_group_concurrency _ global_positive;
    site = or_default-positive c.max_per_site_concurrency _ global_positive;
    connections = or_float-is_rate c.max_new_connections _ refl;
    attempts = or_default-positive c.max_attempts _ refl;
    initial = or_default-positive c.backoff_initial _ refl;
    limit = or_default-positive c.backoff_max _ refl;
    threshold = or_default-positive c.circuit_failure_threshold _ refl;
    cooldown = or_default-positive c.circuit_open_duration _ refl;
    ttl = or_default-positive c.lease_ttl _ refl;
    renew =
        or_default-positive c.lease_renew_interval _
          (ttl_third_positive (or_default c.lease_ttl (pos (15 * minute))));
  }

or_default_kept : (v d : ℤ) → positive v ≡ true → or_default v d ≡ v
or_default_kept v d h = rw h

-- A configuration that is normal and names its worker is left as it is.
pub normalize-eq_self :
    (id : Text) (c : Config) → IsNormal c → is_empty c.worker_id ≡ false → normalize id c ≡ c
unfolding normalize
normalize-eq_self id c n w = simp (
  n.queue_size,
  n.global,
  n.vendor,
  n.group,
  n.site,
  or_float_kept c.max_new_connections (float_of 1) n.connections,
  n.attempts,
  n.initial,
  n.limit,
  n.threshold,
  n.cooldown,
  n.ttl,
  n.renew,
  w,
)

double-pos : (n : ℕ) → 2 * n < 2 ^ 63 → double (pos n) ≡ pos (2 * n)
unfolding double
double-pos n h = ground arith

pow-pos : (k : ℕ) → 0 < 2 ^ k
pow-pos zero = omega arith
pow-pos (suc k) = rw pow-suc (omega (arith, pow-pos k))

shift_double : (i k : ℕ) → (i * 2 ^ suc k ≡ 2 * i * 2 ^ k) × (2 * i ≤ 2 * i * 2 ^ k)
shift_double i k = rw pow-suc (omega arith, grind (arith, pow-pos k))

module _ (m : ℕ) (b : m < 2 ^ 62) where
  backoff_loop-min : (k i : ℕ) → i ≤ m → backoff_loop k (pos i) (pos m) ≡ pos (min (i * 2 ^ k) m)
  unfolding backoff_loop
  backoff_loop-min zero i h = ap pos (omega arith)
  backoff_loop-min (suc k) i h =
      rw (double-pos i (omega arith)) (ground (arith, shift_double i k, backoff_loop-min k (2 * i)))

-- Where the initial delay is at most the maximum, which is below half the range of int64, the delay
-- before attempt `k + 2` is the initial one, doubled `k` times and cut off at the maximum: the doubling
-- never wraps.
pub backoff-min :
    (c : Config) (k i m : ℕ)
    → c.backoff_initial ≡ pos i
    → c.backoff_max ≡ pos m
    → m < 2 ^ 62
    → i ≤ m
    → backoff c (pos (suc k)) ≡ pos (min (i * 2 ^ k) m)
unfolding backoff
backoff-min c k i m hi hm b h = rw (hi, hm) (rw (suc-sub-one k) (backoff_loop-min m b k i h))
  where
    suc-sub-one : (n : ℕ) → suc n - 1 ≡ n
    suc-sub-one n = omega arith
