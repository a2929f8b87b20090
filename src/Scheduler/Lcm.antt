-- ===== src/Scheduler/Lcm.antt =====
-- schedule_computation.h: gcd and lcm of ScheduleComputation, for ints that are not negative.
use Prim.Native.Nat.{◌∣◌}
use native.Mathlib.Nat.{
  mod-lt, mul_comm, mul_assoc, dvd-mod_iff, dvd_refl, dvd-zero, dvd_of_mod-eq-zero, dvd-mul_left,
  mul-div_cancel', mul-le-mul_right, div-le_self, div-mul_cancel, pos_of_dvd_of_pos, add-mul,
  div-add-mod', dvd-sub, dvd-mul_left_of_dvd, mul-dvd-mul_left, dvd_of_mul-dvd-mul_right,
  mod-eq_of_lt, le_of_dvd,
}
use tdmh.Base.{
  ℕ, zero, suc, ◌+◌, ◌-◌, ◌*◌, ◌/◌, ◌%◌, ◌≤◌, ◌<◌, ◌≡◌, sym, ap, subst, ◌∙◌, ◌↔◌, inl, inr, Option,
  none, some, ◌==◌, if◌then◌else◌, arith, Bool-cases,
}

-- The loop of `gcd`, two remainders a round.
unfoldable pub gcd_loop : ℕ → ℕ → ℕ → Option ℕ
gcd_loop zero a b = none
gcd_loop (suc fuel) a b =
    let rest = gcd_loop fuel (a % (b % a)) (b % a) in
    if a == 0 then some b else if b % a == 0 then some a else rest

-- The first argument falls in each round.
unfoldable pub gcd : ℕ → ℕ → ℕ
unfolding gcd_loop
gcd a b = elim (gcd_loop (suc a) a b) [ none ↦ 0 | some g ↦ g ]

-- The value of the formula of `lcm`, without a bound.
unfoldable pub common_multiple : ℕ → ℕ → ℕ
unfolding gcd
common_multiple a b = let temp = gcd a b in if temp == 0 then 0 else a / temp * b

-- The callers keep the result as `unsigned`, so that it is one modulo 2 ^ 32. From 2 ^ 31 on the
-- product of ints overflows, which C++ leaves undefined; it wraps here.
unfoldable pub lcm : ℕ → ℕ → ℕ
unfolding common_multiple
lcm a b = common_multiple a b % 4294967296

-- Both reductions of a round keep the common divisors.
common-mod : (d a b : ℕ) → d ∣ a → (d ∣ b) ↔ (d ∣ b % a)
common-mod d a b h = ((dvd-mod_iff d {m = b} {n = a} h).1, (dvd-mod_iff d {m = b} {n = a} h).0)

-- A remainder keeps the common divisors of two multiples.
scaled-mod : (d a b m : ℕ) → d ∣ a * m → d ∣ b * m → d ∣ b % a * m
scaled-mod d a b m h k =
    let whole : b / a * (a * m) + b % a * m ≡ b * m =
      ap (λ n. n + b % a * m) (sym (mul_assoc (b / a) a m))
      ∙ sym (add-mul (b / a * a) (b % a) m)
      ∙ ap (λ n. n * m) (div-add-mod' b a) in
    let rest : b * m - b / a * (a * m) ≡ b % a * m = omega arith in
    subst (λ n. d ∣ n) rest (dvd-sub d k (dvd-mul_left_of_dvd d h (b / a)))

-- A number whose divisors are the common divisors of `a` and `b`, also for their multiples.
pub record IsGcd (a b g : ℕ) : Type 0 where
  pub divides : (d m : ℕ) → d ∣ a * m → d ∣ b * m → d ∣ g * m
  pub left : g ∣ a
  pub right : g ∣ b

zero_round : (b : ℕ) → IsGcd 0 b b
zero_round b = record { divides = λ d m h k. k; left = dvd-zero b; right = dvd_refl b }

exact_round : (a b : ℕ) → b % a ≡ 0 → IsGcd a b a
exact_round a b e = record {
  divides = λ d m h k. h;
  left = dvd_refl a;
  right = dvd_of_mod-eq-zero a e;
}

full_round : (a b g : ℕ) → IsGcd (a % (b % a)) (b % a) g → IsGcd a b g
full_round a b g h =
    let to_a : g ∣ a = (common-mod g (b % a) a h.right).1 h.left in
    record {
      divides = λ d m j k.
          let rest = scaled-mod d a b m j k in h.divides d m (scaled-mod d (b % a) a m rest j) rest;
      left = to_a;
      right = (common-mod g a b to_a).1 h.right;
    }

gcd_loop_lem : (fuel a b : ℕ) → a < fuel → (g : ℕ) × (gcd_loop fuel a b ≡ some g) × IsGcd a b g
unfolding gcd_loop
gcd_loop_lem zero a b h = absurd (omega arith)
gcd_loop_lem (suc fuel) a b h = elim (Bool-cases (a == 0)) [
  | inl z ↦ (b, rw z, subst (λ n. IsGcd n b b) (ground arith) (zero_round b))
  | inr nz ↦ elim (Bool-cases (b % a == 0)) [
    | inl e ↦ (a, rw nz (rw e), exact_round a b (ground arith))
    | inr ne ↦
        let falls : a % (b % a) < fuel =
          falls_lem a b fuel (omega arith) (ground arith) (ground arith) in
        let (g, r, ok) = gcd_loop_lem fuel (a % (b % a)) (b % a) falls in
        (g, rw nz (rw ne r), full_round a b g ok)
  ]
]
  where
    falls_lem : (a b fuel : ℕ) → a ≤ fuel → 0 < a → 0 < b % a → a % (b % a) < fuel
    falls_lem a b fuel h p q = omega (arith, mod-lt a q, mod-lt b p)

gcd-IsGcd : (a b : ℕ) → IsGcd a b (gcd a b)
unfolding gcd
gcd-IsGcd a b = let (g, e, ok) = gcd_loop_lem (suc a) a b (omega arith) in rw (e, gcd) ok

-- A common multiple of two numbers, and positive.
pub record IsMultiple (a b m : ℕ) : Type 0 where
  pub left : a ∣ m
  pub right : b ∣ m
  pub positive : 0 < m

quotient_lem : (a b g : ℕ) → g ∣ a → g ∣ b → a / g * b ≡ a * (b / g)
quotient_lem a b g h k =
    ap (◌*◌ (a / g)) (sym (mul-div_cancel' g k))
    ∙ sym (mul_assoc (a / g) g (b / g))
    ∙ ap (λ n. n * (b / g)) (div-mul_cancel g h)

-- For positive numbers, the formula gives a positive number that both divide.
pub common_multiple-IsMultiple : (a b : ℕ) → 0 < a → 0 < b → IsMultiple a b (common_multiple a b)
unfolding common_multiple
common_multiple-IsMultiple a b ha hb =
    let ok = gcd-IsGcd a b in
    let g = gcd a b in
    let g_pos : 0 < g = pos_of_dvd_of_pos ok.left ha in
    let value : common_multiple a b ≡ a / g * b = ground arith in
    let whole : a / g * g ≡ a = div-mul_cancel g ok.left in
    rw value (record {
      left =
          rw (quotient_lem a b g ok.left ok.right)
            (rw (mul_comm a (b / g)) (dvd-mul_left a (b / g)));
      right = dvd-mul_left b (a / g);
      positive = grind arith;
    })

pub common_multiple-le-mul : (a b : ℕ) → common_multiple a b ≤ a * b
unfolding common_multiple
common_multiple-le-mul a b = elim (Bool-cases (gcd a b == 0)) [
  | inl z ↦ rw (z, common_multiple) (omega arith)
  | inr nz ↦ rw (nz, common_multiple) (mul-le-mul_right b (div-le_self a (gcd a b)))
]

-- It is the least one: it divides every common multiple.
pub common_multiple-dvd : (a b m : ℕ) → 0 < a → a ∣ m → b ∣ m → common_multiple a b ∣ m
unfolding common_multiple
common_multiple-dvd a b m ha j k =
    let ok = gcd-IsGcd a b in
    let g = gcd a b in
    let g_pos : 0 < g = pos_of_dvd_of_pos ok.left ha in
    let value : common_multiple a b ≡ a / g * b = ground arith in
    let scaled : b * a ∣ m * g = rw (mul_comm m g) (
      ok.divides (b * a) m (rw (mul_comm b a) (mul-dvd-mul_left b a k)) (mul-dvd-mul_left a b j)) in
    let whole : a / g * b * g ≡ b * a =
      ap (λ n. n * g) (mul_comm (a / g) b)
      ∙ mul_assoc b (a / g) g
      ∙ ap (◌*◌ b) (div-mul_cancel g ok.left) in
    rw value (dvd_of_mul-dvd-mul_right (a / g * b) g_pos (rw whole scaled))

-- Where a common multiple fits into an int, lcm does not wrap.
pub lcm_exact :
    (a b m : ℕ) → 0 < a → 0 < m → m < 2147483648 → a ∣ m → b ∣ m → lcm a b ≡ common_multiple a b
unfolding lcm
lcm_exact a b m ha hm lt j k =
    mod-eq_of_lt (omega (arith, le_of_dvd hm (common_multiple-dvd a b m ha j k)))
