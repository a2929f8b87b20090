-- ===== src/Scheduler/Allocate/Order.antt =====
-- What scheduleStreams does with one stream: it adds a block of transmissions whose offsets rise
-- and whose periods divide the schedule's size, or it leaves the schedule as it was.
use Prim.Native.Nat.{◌∣◌}
use native.Mathlib.Nat.{dvd_refl, dvd_trans, pos_of_dvd_of_pos}
use mathlib.Core.List.{append_assoc, append-nil}
use tdmh.Base.{
  ℕ, zero, suc, ◌+◌, ◌-◌, ◌%◌, ◌^◌, ◌≤◌, ◌<◌, ◌≡◌, refl, sym, ap, subst, ◌∙◌, inl, inr, Links, List,
  [], ◌∷◌, ◌++◌, Option, none, some, ◌||◌, not, arith, Bool-cases, All, All-append, All-map, length,
}
use tdmh.Queue.{pop_back}
use tdmh.Scheduler.Lcm.{common_multiple-IsMultiple, common_multiple-dvd, lcm_exact}
use tdmh.Scheduler.Element.{ScheduleElement, set_offset, period_of}
use tdmh.Scheduler.Slots.{Config, u32}
use tdmh.Scheduler.Conflicts.Sound.{IsSized, IsSupported, product-le}
use tdmh.Scheduler.Allocate.{
  Allocation, Block, try_offset, max_offset, find_offset, pop_times, place, search, schedule_block,
  begin_block,
}
use tdmh.Scheduler.Allocate.Free.{max_offset_lem}

-- The offsets rise strictly, from `n` on.
abbrev pub RisesFrom : ℕ → List ScheduleElement → Type 0
RisesFrom n [] = Unit
RisesFrom n (e ∷ es) = (n ≤ e.offset) × RisesFrom (suc e.offset) es

abbrev Before : ℕ → List ScheduleElement → Type 0
Before o = All (λ e. e.offset < o)

RisesFrom-append :
    (n : ℕ) (xs : List ScheduleElement) (e : ScheduleElement)
    → RisesFrom n xs
    → Before e.offset xs
    → n ≤ e.offset
    → RisesFrom n (xs ++ e ∷ [])
RisesFrom-append n [] e r b h = (h, tt)
RisesFrom-append n (x ∷ xs) e r b h = (r.0, RisesFrom-append (suc x.offset) xs e r.1 b.1 b.0)

pop_back-append : (xs : List ScheduleElement) (e : ScheduleElement) → pop_back (xs ++ e ∷ []) ≡ xs
unfolding pop_back
pop_back-append [] e = refl
pop_back-append (y ∷ []) e = refl
pop_back-append (y ∷ z ∷ xs) e = ap (◌∷◌ y) (pop_back-append (z ∷ xs) e)

find_bounds :
    (c : Config) (current scheduled : List ScheduleElement) (t : ScheduleElement) (count o r : ℕ)
    (links : Links)
    → (find_offset count c current scheduled t o links).0 ≡ some r
    → (o ≤ r) × (r < o + count)
unfolding find_offset
find_bounds c current scheduled t zero o r links e = absurd (cc e)
find_bounds c current scheduled t (suc count) o r links e = ground (
  arith,
  find_bounds c current scheduled t count (suc o) r links,
  find_bounds c current scheduled t count (suc o) r (try_offset c current scheduled t o links).1,
)

-- The elements of a block come from the transmissions of the stream, in their order.
pub data TakenFrom : List ScheduleElement → List ScheduleElement → Type 0 where
  none_left : TakenFrom [] []
  skipped :
      {ts es : List ScheduleElement} (t : ScheduleElement) → TakenFrom ts es → TakenFrom (t ∷ ts) es
  taken :
      {ts es : List ScheduleElement} (t : ScheduleElement) (o : ℕ)
      → TakenFrom ts es
      → TakenFrom (t ∷ ts) (set_offset o t ∷ es)

-- The stream as a whole: undone, or a block of it added after what was there, with a size that
-- divides `n` still.
pub data Outcome (n : ℕ) (start : Allocation) (ts : List ScheduleElement) (a : Allocation)
    : Type 0 where
  undone : a.scheduled ≡ start.scheduled → a.new_size ≡ start.new_size → Outcome n start ts a
  extended :
      (block : List ScheduleElement)
      → a.scheduled ≡ start.scheduled ++ block
      → TakenFrom ts block
      → RisesFrom 0 block
      → All (λ e. period_of e ∣ a.new_size) block
      → start.new_size ∣ a.new_size
      → a.new_size ∣ n
      → Outcome n start ts a

module _ (c : Config) (current : List ScheduleElement) (start : Allocation) (sized : IsSized c)
    (n : ℕ) (n_pos : 0 < n) (n_lt : n < 2147483648) where
  -- The state in the middle of a stream, with what the stream has added so far.
  record Partial (b : Block) (block : List ScheduleElement) : Type 0 where
    added : b.allocation.scheduled ≡ start.scheduled ++ block
    undoes : pop_times b.block_size b.allocation.scheduled ≡ start.scheduled
    rises : RisesFrom 0 block
    before : Before b.last_offset block
    divides : All (λ e. period_of e ∣ b.allocation.new_size) block
    grows : start.new_size ∣ b.allocation.new_size
    fits : b.allocation.new_size ∣ n
    positive : 0 < b.allocation.new_size

  placed :
      (t : ScheduleElement) (o : ℕ) (links : Links) (b : Block) (block : List ScheduleElement)
      → Partial b block
      → IsSupported t
      → period_of t ∣ n
      → b.last_offset ≤ o
      → o < 1000000
      → Partial (place c t (some o, links) b) (block ++ set_offset o t ∷ [])
  unfolding place set_offset period_of
  placed t o links b block p q fit lo hi =
      let kept : o % 2 ^ 20 ≡ o = omega arith in
      let wrap : u32 (suc o) ≡ suc o = omega arith in
      let size = b.allocation.new_size in
      let common = common_multiple-IsMultiple size (period_of t) p.positive q.repeats in
      let exact = lcm_exact size (period_of t) n p.positive n_pos n_lt p.fits fit in
      record {
        added =
            ap (λ l. l ++ set_offset o t ∷ []) p.added
            ∙ append_assoc start.scheduled block (set_offset o t ∷ []);
        undoes =
            ap (pop_times b.block_size) (pop_back-append b.allocation.scheduled (set_offset o t))
            ∙ p.undoes;
        rises =
            RisesFrom-append 0 block (set_offset o t) p.rises
              (All-map _ _ block (λ e lt. omega (arith, kept)) p.before) (omega arith);
        before =
            All-append _ block _ (All-map _ _ block (λ e lt. omega (arith, wrap)) p.before)
              (omega (arith, kept, wrap), tt);
        divides =
            All-append _ block _
              (All-map _ _ block (λ e d. dvd_trans (period_of e) d (rw exact common.left))
                p.divides)
              (rw exact common.right, tt);
        grows = dvd_trans start.new_size p.grows (rw exact common.left);
        fits = rw exact (common_multiple-dvd size (period_of t) n p.positive p.fits fit);
        positive = rw exact common.positive;
      }

  passed :
      (t : ScheduleElement) (links : Links) (b : Block) (block : List ScheduleElement)
      → Partial b block
      → suc b.last_offset < 4294967296
      → Partial (place c t (none, links) b) block
  unfolding place
  passed t links b block p h =
      let wrap : u32 (suc b.last_offset) ≡ suc b.last_offset = omega arith in
      record {
        added = p.added;
        undoes = p.undoes;
        rises = p.rises;
        before = All-map _ _ block (λ e lt. omega (arith, wrap)) p.before;
        divides = p.divides;
        grows = p.grows;
        fits = p.fits;
        positive = p.positive;
      }

  -- The same in the middle of a stream, after `block`.
  data Ending (block ts : List ScheduleElement) (a : Allocation) : Type 0 where
    undone : a.scheduled ≡ start.scheduled → a.new_size ≡ start.new_size → Ending block ts a
    extended :
        (more : List ScheduleElement)
        → TakenFrom ts more
        → a.scheduled ≡ start.scheduled ++ (block ++ more)
        → RisesFrom 0 (block ++ more)
        → All (λ e. period_of e ∣ a.new_size) (block ++ more)
        → start.new_size ∣ a.new_size
        → a.new_size ∣ n
        → Ending block ts a

  Ending-skipped :
      (t : ScheduleElement) (block ts : List ScheduleElement) (a : Allocation)
      → Ending block ts a
      → Ending block (t ∷ ts) a
  Ending-skipped t block ts a (undone e f) = undone e f
  Ending-skipped t block ts a (extended more u e r d g f) = extended more (skipped t u) e r d g f

  Ending-taken :
      (t : ScheduleElement) (o : ℕ) (block ts : List ScheduleElement) (a : Allocation)
      → Ending (block ++ set_offset o t ∷ []) ts a
      → Ending block (t ∷ ts) a
  Ending-taken t o block ts a (undone e f) = undone e f
  Ending-taken t o block ts a (extended more u e r d g f) =
      let shift = append_assoc block (set_offset o t ∷ []) more in
      extended (set_offset o t ∷ more) (taken t o u) (rw (← shift) e) (subst (RisesFrom 0) shift r)
        (subst (All (λ x. period_of x ∣ a.new_size)) shift d) g f

  block_lem :
      (ts : List ScheduleElement) (b : Block) (block : List ScheduleElement)
      → Partial b block
      → All IsSupported ts
      → All (λ t. period_of t ∣ n) ts
      → length ts ≤ 1000
      → b.last_offset + length ts ≤ 1002000
      → Ending block ts (schedule_block c current start.new_size ts b)
  unfolding schedule_block place
  block_lem [] b block p q fit h k =
      extended [] none_left (rw (append-nil block) p.added) (rw (append-nil block) p.rises)
        (rw (append-nil block) p.divides) p.grows p.fits
  block_lem (t ∷ ts) b block p q fit h k =
      elim (Bool-cases (b.stream_err || not (c.has_edge t.tx t.rx))) [
        | inl failed ↦ rw (failed, schedule_block) (undone p.undoes refl)
        | inr fine ↦
            rw (fine, schedule_block)
              (go (λ b' block' p' k'. block_lem ts b' block' p' q.1 fit.1 (omega arith) k')
                (search c current t b) refl)
      ]
    where
      go :
          ((b' : Block) (block' : List ScheduleElement)
            → Partial b' block'
            → b'.last_offset + length ts ≤ 1002000
            → Ending block' ts (schedule_block c current start.new_size ts b'))
          → (r : Option ℕ × Links) → search c current t b ≡ r
          → Ending block (t ∷ ts) (schedule_block c current start.new_size ts (place c t r b))
      go rest (none, links) e = Ending-skipped t block ts _ (
          rest (place c t (none, links) b) block (passed t links b block p (omega arith))
            (omega arith))
      go rest (some o, links) e =
          let (lo, hi) =
            find_bounds c current b.allocation.scheduled t (max_offset c t - b.last_offset)
              b.last_offset o b.allocation.links (ap (λ s. s.0) e) in
          let bound =
            product-le (period_of t) c.slots_per_tile 100 10000 q.0.supported sized.few_slots in
          let top = max_offset_lem c t sized q.0 in
          let small : o < 1000000 = omega arith in
          Ending-taken t o block ts _ (
            rest (place c t (some o, links) b) (block ++ set_offset o t ∷ [])
              (placed t o links b block p q.0 fit.0 lo small) (omega arith))

-- One stream of at most a thousand transmissions of supported periods, scheduled from a size
-- that divides, like all their periods, a positive number below 2 ^ 31: if it fails, the
-- schedule and its size are as before it; else a block of its transmissions, in their order,
-- follows what was scheduled, their offsets rise strictly, and the new size is a multiple of
-- their periods and of the old size, and still divides that number.
pub schedule_block_lem :
    (c : Config) (current : List ScheduleElement) (ts : List ScheduleElement) (start : Allocation)
    → IsSized c
    → All IsSupported ts
    → length ts ≤ 1000
    → (n : ℕ) → 0 < n
    → n < 2147483648
    → All (λ t. period_of t ∣ n) ts
    → start.new_size ∣ n
    → Outcome n start ts (schedule_block c current start.new_size ts (begin_block start))
schedule_block_lem c current ts start s q h n pos lt periods fit = finish (
    block_lem c current start s n pos lt ts (begin_block start) []
      (record {
        added = sym (append-nil start.scheduled);
        undoes = refl;
        rises = tt;
        before = tt;
        divides = tt;
        grows = dvd_refl start.new_size;
        fits = fit;
        positive = pos_of_dvd_of_pos fit pos;
      })
      q periods h (omega arith))
  where
    finish : {a : Allocation} → Ending c current start s n pos lt [] ts a → Outcome n start ts a
    finish (undone e f) = undone e f
    finish (extended more u e r d g f) = extended more e u r d g f
