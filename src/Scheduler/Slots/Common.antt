-- ===== src/Scheduler/Slots/Common.antt =====
-- checkSlotConflict decides whether two transmissions ever share a slot.
use Prim.Native.Nat.{◌∣◌}
use native.Mathlib.Nat.{
  mul-dvd-mul_right, mod-mod_of_dvd, mod-eq_of_lt, mod-lt, div-add-mod', add-mul-mod_self_right,
}
use tdmh.Base.{
  ℕ, zero, suc, ◌+◌, ◌*◌, ◌/◌, ◌%◌, ◌≤◌, ◌<◌, ◌≡◌, ◌∙◌, ap, ◌↔◌, true, ltb, ◌==◌, arith, Bool-cases,
  inl, inr,
}
use tdmh.Scheduler.Lcm.{lcm, common_multiple, common_multiple-IsMultiple}
use tdmh.Scheduler.Element.{ScheduleElement, period_of}
use tdmh.Scheduler.Slots.{Config, u32, meets, meet_from, check_slot_conflict}

-- The slots of a transmission with its first slot at `offset` that repeats each `period` slots.
abbrev pub Occupies : ℕ → ℕ → ℕ → Type 0
Occupies offset period t = (k : ℕ) × (t ≡ offset + k * period)

-- The slots of the loop, before the bound `total`; the additions do not wrap.
abbrev Fits : ℕ → ℕ → Type 0
Fits period total = total + period ≤ 4294967296

meets_sound :
    (fuel a b p total : ℕ)
    → Fits p total
    → meets fuel a b p total ≡ true
    → Occupies b p a × (a < total)
unfolding meets
meets_sound zero a b p total f h = absurd (cc h)
meets_sound (suc fuel) a b p total f h = elim (Bool-cases (ltb b total)) [
  | inr out ↦ absurd (cc (rw (out, meets) at h))
  | inl within ↦ elim (Bool-cases (a == b)) [
    | inl e ↦ ((0, grind arith), ground arith)
    | inr ne ↦
        let next : u32 (b + p) ≡ b + p = ground arith in
        let rest : meets fuel a (b + p) p total ≡ true = ground arith in
        let ((k, e), lt) = meets_sound fuel a (b + p) p total f rest in ((suc k, grind arith), lt)
  ]
]

meets_complete :
    (fuel a b p total k : ℕ)
    → Fits p total
    → a < total
    → a ≡ b + k * p
    → k < fuel
    → meets fuel a b p total ≡ true
unfolding meets
meets_complete zero a b p total k f lt e h = absurd (omega arith)
meets_complete (suc fuel) a b p total zero f lt e h = ground arith
meets_complete (suc fuel) a b p total (suc k) f lt e h =
    let next : b + p ≤ a = grind arith in
    let rest = meets_complete fuel a (b + p) p total k f lt (grind arith) (omega arith) in
    ground (arith, rest)

meet_from_sound :
    (fuel a p b q total : ℕ)
    → Fits p total
    → Fits q total
    → meet_from fuel a p b q total ≡ true
    → (t : ℕ) × Occupies a p t × Occupies b q t
unfolding meet_from
meet_from_sound zero a p b q total f g h = absurd (cc h)
meet_from_sound (suc fuel) a p b q total f g h = elim (Bool-cases (ltb a total)) [
  | inr out ↦ absurd (cc (rw (out, meet_from) at h))
  | inl within ↦ elim (Bool-cases (meets (suc total) a b q total)) [
    | inl m ↦ (a, (0, grind arith), (meets_sound (suc total) a b q total g m).0)
    | inr no_meet ↦
        let next : u32 (a + p) ≡ a + p = ground arith in
        let rest : meet_from fuel (a + p) p b q total ≡ true = ground arith in
        let (t, (k, e), o) = meet_from_sound fuel (a + p) p b q total f g rest in
        (t, (suc k, grind arith), o)
  ]
]

-- A period is at least one slot, so a slot below the bound is met within that many rounds.
rounds-le : (t b q l : ℕ) → 0 < q → t ≡ b + l * q → l ≤ t
rounds-le t b q l h e = grind arith

meet_from_complete :
    (fuel a p b q total t k l : ℕ)
    → Fits p total
    → Fits q total
    → 0 < q
    → t < total
    → t ≡ a + k * p
    → t ≡ b + l * q
    → k < fuel
    → meet_from fuel a p b q total ≡ true
unfolding meet_from
meet_from_complete zero a p b q total t k l f g hq lt ea eb h = absurd (omega arith)
meet_from_complete (suc fuel) a p b q total t zero l f g hq lt ea eb h =
    let here : a ≡ t = omega arith in
    let m =
      meets_complete (suc total) a b q total l g (omega arith) (here ∙ eb)
        (omega (arith, rounds-le t b q l hq eb)) in
    ground (arith, m)
meet_from_complete (suc fuel) a p b q total t (suc k) l f g hq lt ea eb h =
    let next : a + p ≤ t = grind arith in
    let rest =
      meet_from_complete fuel (a + p) p b q total t k l f g hq lt (grind arith) eb (omega arith) in
    ground (arith, rest)

-- A slot that both use, brought below the bound, is still one that each uses.
reduce :
    (offset p total t : ℕ)
    → offset < p
    → p ∣ total
    → Occupies offset p t
    → (k : ℕ) × (t % total ≡ offset + k * p)
reduce offset p total t h d (k, e) =
    let slot : t % total % p ≡ offset =
      mod-mod_of_dvd p t d
      ∙ ap (λ n. n % p) e
      ∙ add-mul-mod_self_right offset k p
      ∙ mod-eq_of_lt h in
    (t % total / p, grind (arith, div-add-mod' (t % total) p))

-- The loops, over any common multiple of the two periods.
meet_from_iff :
    (a p b q total : ℕ)
    → Fits p total
    → Fits q total
    → a < p
    → b < q
    → 0 < total
    → p ∣ total
    → q ∣ total
    → (meet_from (suc total) a p b q total ≡ true) ↔ ((t : ℕ) × Occupies a p t × Occupies b q t)
meet_from_iff a p b q total f g ha hb pos dp dq = (
  meet_from_sound (suc total) a p b q total f g,
  λ m.
      let (t, o, u) = m in
      let (k, e) = reduce a p total t ha dp o in
      let (l, r) = reduce b q total t hb dq u in
      let lt = mod-lt t pos in
      meet_from_complete (suc total) a p b q total (t % total) k l f g (omega arith) lt e r
        (omega (arith, rounds-le (t % total) a p k (omega arith) e)),
)

lcm_total :
    (a b n : ℕ)
    → 0 < n
    → common_multiple a b * n < 4294967296
    → u32 (lcm a b * n) ≡ common_multiple a b * n
unfolding lcm
lcm_total a b n pos lt =
    let small : common_multiple a b < 4294967296 = grind arith in
    rw (mod-eq_of_lt small) (mod-eq_of_lt lt)

-- The periods are known, each offset lies in the first period, and no sum of the loops wraps.
pub record AreTimed (c : Config) (new old : ScheduleElement) (offset : ℕ) : Type 0 where
  pub slots : 0 < c.slots_per_tile
  pub new_period : 0 < period_of new
  pub old_period : 0 < period_of old
  pub new_offset : offset < period_of new * c.slots_per_tile
  pub old_offset : old.offset < period_of old * c.slots_per_tile
  pub no_wrap :
      common_multiple (period_of new) (period_of old) * c.slots_per_tile
        + period_of new * c.slots_per_tile
        + period_of old * c.slots_per_tile
      ≤ 4294967296

-- For two transmissions with positive periods and offsets within them, and sums that do not
-- wrap, checkSlotConflict answers whether the two, each repeated for ever, share a slot.
pub check_slot_conflict_iff :
    (c : Config) (new old : ScheduleElement) (offset : ℕ)
    → AreTimed c new old offset
    → (check_slot_conflict c new old offset ≡ true) ↔ (
        (t : ℕ) × Occupies offset (period_of new * c.slots_per_tile) t
        × Occupies old.offset (period_of old * c.slots_per_tile) t)
unfolding check_slot_conflict
check_slot_conflict_iff c new old offset h =
    let n = c.slots_per_tile in
    let pa = period_of new * n in
    let pb = period_of old * n in
    let total = common_multiple (period_of new) (period_of old) * n in
    let common =
      common_multiple-IsMultiple (period_of new) (period_of old) h.new_period h.old_period in
    let pos : 0 < total = grind (arith, common.positive, h.slots) in
    let ea : u32 pa ≡ pa = omega (arith, h.no_wrap) in
    let eb : u32 pb ≡ pb = omega (arith, h.no_wrap) in
    let et : u32 (lcm (period_of new) (period_of old) * n) ≡ total =
      lcm_total (period_of new) (period_of old) n h.slots
        (omega (arith, h.no_wrap, h.new_offset)) in
    rw (et, ea, eb)
      (meet_from_iff offset pa old.offset pb total (omega (arith, h.no_wrap))
        (omega (arith, h.no_wrap)) h.new_offset h.old_offset pos (mul-dvd-mul_right _ common.left n)
        (mul-dvd-mul_right _ common.right n))
