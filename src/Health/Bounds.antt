-- ===== src/Health/Bounds.antt =====
-- core/health.py: the verdict on a catalogue against its size.
use native.Mathlib.Nat.{mul-le-mul_right, le_of_mul-le-mul_right, le_trans, mul_comm}
use smartwatch_clank.Base.{
  ℕ, ◌*◌, ◌≤◌, ◌<◌, ◌≡◌, ◌≢◌, refl, ◌↔◌, ◌⊎◌, String, Bool, true, Option, none, some, arith, nat_eq,
}
use smartwatch_clank.Base.Result.{Result, ok, err}
use smartwatch_clank.Platform.{Platform}
use smartwatch_clank.Health.{Ratio, RunnerConfig, check_config, assess_catalogue}

-- 0: fine, 1: a warning, 2: the run fails
abbrev pub severity : Result (Option String) → ℕ
severity (ok none) = 0
severity (ok (some w)) = 1
severity (err e) = 2

ratio_room : (n d previous current : ℕ) → n ≤ d → previous ≤ current → n * previous ≤ current * d
ratio_room n d previous current h k = grind arith

-- failure ≤ warning ≤ 1 puts the failure ratio under 1.
under_one : (fn fd wn wd : ℕ) → fn * wd ≤ wn * fd → wn ≤ wd → 0 < wd → fn ≤ fd
under_one fn fd wn wd a b d =
    le_of_mul-le-mul_right (le_trans a (rw (mul_comm fd wd) (mul-le-mul_right fd b))) d

config_order :
    (c : RunnerConfig)
    → check_config c ≡ ok c
    → (c.catalogue_failure_ratio.num * c.catalogue_warning_ratio.den
        ≤ c.catalogue_warning_ratio.num * c.catalogue_failure_ratio.den)
      × (c.catalogue_warning_ratio.num ≤ c.catalogue_warning_ratio.den)
unfolding check_config
config_order c h = (ground arith, ground arith)

-- Under a configuration that the program accepts, a catalogue that is not empty and has not shrunk
-- is healthy and draws no warning, whatever was there before.
pub assess_catalogue_grown :
    (p : Platform) (current : ℕ) (previous : Option ℕ) (z : Bool) (c : RunnerConfig)
    → check_config c ≡ ok c
    → 0 < c.catalogue_warning_ratio.den
    → 0 < current
    → ((n : ℕ) → previous ≡ some n → n ≤ current)
    → assess_catalogue p current previous z c.catalogue_warning_ratio c.catalogue_failure_ratio
      ≡ ok none
unfolding assess_catalogue check_config
assess_catalogue_grown p current none z c v d h g = ground arith
assess_catalogue_grown p current (some n) z c v d h g =
    let (a, b) = config_order c v in
    let w = c.catalogue_warning_ratio in
    let f = c.catalogue_failure_ratio in
    ground (
      arith,
      g n refl,
      ratio_room w.num w.den n current b (g n refl),
      ratio_room f.num f.den n current (under_one f.num f.den w.num w.den a b d) (g n refl),
    )

-- a / b < r, where b is not zero
abbrev pub IsBelow : ℕ → ℕ → Ratio → Type 0
IsBelow current previous r = (0 < previous) × (current * r.den < r.num * previous)

-- A run fails exactly when there is nothing although something was expected, or when the count has
-- fallen below the failure ratio of a previous count that was not zero; it draws a warning exactly
-- when it does not fail and the count has fallen below the warning ratio. Without a previous count,
-- it fails only when there is nothing although something was expected, and never draws a warning.
pub assess_catalogue_verdicts :
    (p : Platform) (current previous : ℕ) (z : Bool) (warning failure : Ratio)
    → ((severity (assess_catalogue p current (some previous) z warning failure) ≡ 2)
        ↔ (((current ≡ 0) × (z ≡ true)) ⊎ IsBelow current previous failure))
      × ((severity (assess_catalogue p current (some previous) z warning failure) ≡ 1) ↔ (
          (¬ ((current ≡ 0) × (z ≡ true)))
          × (¬ IsBelow current previous failure)
          × IsBelow current previous warning))
      × ((severity (assess_catalogue p current none z warning failure) ≡ 2)
          ↔ ((current ≡ 0) × (z ≡ true)))
      × (severity (assess_catalogue p current none z warning failure) ≢ 1)
unfolding assess_catalogue
assess_catalogue_verdicts p current previous z warning failure =
    (ground arith, ground arith, ground arith, ground arith)
