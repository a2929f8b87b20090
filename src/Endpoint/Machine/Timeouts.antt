-- ===== src/Endpoint/Machine/Timeouts.antt =====
-- How long a stream asks the master, and how often.
use tdmh.Base.{
  ℕ, zero, suc, ◌+◌, ◌-◌, ◌/◌, ◌%◌, ◌≤◌, ◌<◌, ◌≡◌, refl, sym, ap, ◌∙◌, List, [], ◌∷◌, ◌++◌, inl,
  inr, ◌==◌, if◌then◌else◌, Bool-cases, arith,
}
use mathlib.Core.List.{append-nil}
use tdmh.Stream.Collection.{connect, closed}
use tdmh.Endpoint.{
  connecting, connect_failed, close_wait, Endpoint, set_status, Output, sme, ask_again,
  wait_for_opening, Stream, status_of,
}
use tdmh.Endpoint.Machine.{periodic_update, update_times, with_endpoint}

abbrev pub replicate : ℕ → Output → List Output
replicate zero o = []
replicate (suc n) o = o ∷ replicate n o

replicate-append : (n : ℕ) (o : Output) → replicate n o ++ (o ∷ []) ≡ replicate (suc n) o
replicate-append zero o = refl
replicate-append (suc n) o = ap (λ l. o ∷ l) (replicate-append n o)

-- The endpoint of a stream that has been connecting for `n` updates.
abbrev pub waited : ℕ → Endpoint → Endpoint
waited n e = record e { sme_timeout = 600 - n % 600; fail_timeout = 1800 - n }

waited_once :
    (n : ℕ) (e : Endpoint)
    → n < 1799
    → wait_for_opening connect closed connect_failed (waited n e)
      ≡ (waited (suc n) e, if (suc n) % 600 == 0 then sme connect e ∷ [] else [])
unfolding wait_for_opening
waited_once n e h = ground arith

-- No time has gone by since the last change of the status.
pub record IsFresh (e : Endpoint) : Type 0 where
  pub sme_timeout : e.sme_timeout ≡ 600
  pub fail_timeout : e.fail_timeout ≡ 1800

waited_none : (e : Endpoint) → IsFresh e → waited 0 e ≡ e
waited_none e h = ground arith

update_connecting :
    (s : Stream)
    → status_of s ≡ connecting
    → periodic_update s ≡ (
        let (e, outputs) = wait_for_opening connect closed connect_failed s.endpoint in
        (with_endpoint e s, outputs))
unfolding periodic_update
update_connecting s h = rw h refl

asked :
    (n : ℕ) (o : Output)
    → replicate (n / 600) o ++ (if suc n % 600 == 0 then o ∷ [] else []) ≡ replicate (suc n / 600) o
asked n o = elim (Bool-cases (suc n % 600 == 0)) [
  | inl due ↦
      let more : suc n / 600 ≡ suc (n / 600) = ground arith in
      rw (due, more) (replicate-append (n / 600) o)
  | inr early ↦ let same : suc n / 600 ≡ n / 600 = ground arith in rw (early, same) (append-nil _)
]

connecting_lem :
    (n : ℕ) (s : Stream)
    → status_of s ≡ connecting
    → IsFresh s.endpoint
    → n < 1800
    → update_times n s
      ≡ (with_endpoint (waited n s.endpoint) s, replicate (n / 600) (sme connect s.endpoint))
unfolding update_times
connecting_lem zero s h fresh lt =
    ap (λ e. (with_endpoint e s, [])) (sym (waited_none s.endpoint fresh))
connecting_lem (suc n) s h fresh lt = rw (connecting_lem n s h fresh (omega arith)) (
    rw (update_connecting (with_endpoint (waited n s.endpoint) s) h) (
      rw (waited_once n s.endpoint (omega arith)) (
        ap (λ l. (with_endpoint (waited (suc n) s.endpoint) s, l))
          (asked n (sme connect s.endpoint)))))

waited_last :
    (n : ℕ) (e : Endpoint)
    → n ≡ 1799
    → wait_for_opening connect closed connect_failed (waited n e)
      ≡ (set_status connect_failed e, sme closed e ∷ [])
unfolding wait_for_opening
waited_last n e h = ground arith

gave_up :
    (n : ℕ) (s : Stream)
    → n ≡ 1799
    → status_of s ≡ connecting
    → IsFresh s.endpoint
    → update_times (suc n) s ≡ (
      with_endpoint (set_status connect_failed s.endpoint) s,
      replicate (n / 600) (sme connect s.endpoint) ++ (sme closed s.endpoint ∷ []),
    )
unfolding update_times
gave_up n s last h fresh = rw (connecting_lem n s h fresh (omega arith)) (
    rw (update_connecting (with_endpoint (waited n s.endpoint) s) h)
      (rw (waited_last n s.endpoint last) refl))

-- A stream that has just begun to connect, and hears nothing of the master, stays connecting for
-- 1799 periodic updates, and asks the master again after each 600 of them; the 1800th gives up, and
-- tells the master that the stream is closed.
pub update_times-gives_up :
    (s : Stream)
    → status_of s ≡ connecting
    → IsFresh s.endpoint
    → ((n : ℕ)
        → n < 1800
        → (status_of (update_times n s).0 ≡ connecting)
          × ((update_times n s).1 ≡ replicate (n / 600) (sme connect s.endpoint)))
      × (update_times 1800 s ≡ (
        with_endpoint (set_status connect_failed s.endpoint) s,
        sme connect s.endpoint ∷ sme connect s.endpoint ∷ sme closed s.endpoint ∷ [],
      ))
update_times-gives_up s h fresh = (
  λ n lt.
      let e = connecting_lem n s h fresh lt in
      (
        ap {A = Stream × List Output} (λ r. status_of r.0) e ∙ h,
        ap {A = Stream × List Output} (λ r. r.1) e,
      ),
  gave_up 1799 s refl h fresh,
)

-- The endpoint of a stream that is being closed, `m` updates after it last asked.
abbrev pub asked_before : ℕ → Endpoint → Endpoint
asked_before m e = record e { sme_timeout = 600 - m % 601 }

asked_once :
    (m : ℕ) (e : Endpoint)
    → ask_again closed (asked_before m e)
      ≡ (asked_before (suc m) e, if suc m % 601 == 0 then sme closed e ∷ [] else [])
unfolding ask_again
asked_once m e = ground arith

update_closing :
    (s : Stream)
    → status_of s ≡ close_wait
    → periodic_update s
      ≡ (let (e, outputs) = ask_again closed s.endpoint in (with_endpoint e s, outputs))
unfolding periodic_update
update_closing s h = rw h refl

asks :
    (m : ℕ) (o : Output)
    → replicate (m / 601) o ++ (if suc m % 601 == 0 then o ∷ [] else []) ≡ replicate (suc m / 601) o
asks m o = elim (Bool-cases (suc m % 601 == 0)) [
  | inl due ↦
      let more : suc m / 601 ≡ suc (m / 601) = ground arith in
      rw (due, more) (replicate-append (m / 601) o)
  | inr early ↦ let same : suc m / 601 ≡ m / 601 = ground arith in rw (early, same) (append-nil _)
]

asked_before_lem : (e : Endpoint) → e.sme_timeout ≤ 600 → asked_before (600 - e.sme_timeout) e ≡ e
asked_before_lem e h = ground arith

-- However long it takes, a stream that the application has closed tells the master so again and
-- again, after each 601 periodic updates, and stays as it is but for its timeout.
pub update_times-asks :
    (n : ℕ) (s : Stream)
    → status_of s ≡ close_wait
    → s.endpoint.sme_timeout ≤ 600
    → let m = 600 - s.endpoint.sme_timeout + n in
      update_times n s
      ≡ (with_endpoint (asked_before m s.endpoint) s, replicate (m / 601) (sme closed s.endpoint))
unfolding update_times
update_times-asks zero s h low =
    let m : 600 - s.endpoint.sme_timeout + 0 ≡ 600 - s.endpoint.sme_timeout = omega arith in
    let none_yet : (600 - s.endpoint.sme_timeout) / 601 ≡ 0 = omega arith in
    rw (m, none_yet) (ap (λ e. (with_endpoint e s, [])) (sym (asked_before_lem s.endpoint low)))
update_times-asks (suc n) s h low =
    let m = 600 - s.endpoint.sme_timeout + n in
    let next : 600 - s.endpoint.sme_timeout + suc n ≡ suc m = omega arith in
    rw next (
      rw (update_times-asks n s h low) (
        rw (update_closing (with_endpoint (asked_before m s.endpoint) s) h) (
          rw (asked_once m s.endpoint) (
            ap (λ l. (with_endpoint (asked_before (suc m) s.endpoint) s, l))
              (asks m (sme closed s.endpoint))))))
