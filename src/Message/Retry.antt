-- ===== src/Message/Retry.antt =====
-- services/message/internal/client/room.go, withRetry: how often a call is tried, and which attempt
-- counts.
use efir.Prelude.{
  ℕ, suc, ◌+◌, ◌<◌, ◌≤◌, ◌≡◌, refl, ap, List, [], ◌∷◌, Bool, true, false, length, take, arith, ◌⊎◌,
  inl, inr, Bool-cases, not, ◌∙◌,
}
use native.Mathlib.Decide.{dec_lt}
use native.Mathlib.Nat.{add_assoc, zero-add}
use efir.Exec.{Result, ok, err}
use efir.Message.Client.{Failure, is_retried, Attempts, stop, attempt_from, with_retry}

abbrev pub sum : List ℕ → ℕ
sum [] = 0
sum (n ∷ ns) = n + sum ns

-- The attempt settles the call: it is answered, or fails in a way that is not tried again.
abbrev pub is_conclusive : {A : Type 0} → Result Failure A → Bool
is_conclusive (ok a) = true
is_conclusive (err e) = not (is_retried e)

-- An empty list of delays means one attempt.
abbrev pub budget : List ℕ → ℕ
budget [] = 1
budget (d ∷ ds) = suc (length ds)

-- The attempt k is the first that settles the call, or the last that the budget allows.
pub record IsDecisive {A : Type 0} (t : Attempts A) (n k : ℕ) : Type 0 where
  pub within : k < n
  pub earlier : (i : ℕ) → i < k → is_conclusive (t.answer i) ≡ false
  pub settled : (is_conclusive (t.answer k) ≡ true) ⊎ (suc k ≡ n)

module _ {A : Type 0} (t : Attempts A) where
  last_attempt :
      (i waited delay : ℕ)
      → t.ended i ≡ false
      → attempt_from t i waited (delay ∷ []) ≡ stop t (t.answer i) (suc i) waited
  unfolding attempt_from
  last_attempt i waited delay live = rw (live, attempt_from) refl

  settled_attempt :
      (i waited delay : ℕ) (delays : List ℕ)
      → t.ended i ≡ false
      → is_conclusive (t.answer i) ≡ true
      → attempt_from t i waited (delay ∷ delays) ≡ stop t (t.answer i) (suc i) waited
  unfolding attempt_from
  settled_attempt i waited delay [] live h = last_attempt i waited delay live
  settled_attempt i waited delay (next ∷ delays) live h = ground (arith)

  next_attempt :
      (i waited delay next : ℕ) (delays : List ℕ)
      → t.ended i ≡ false
      → t.ended_waiting i ≡ false
      → is_conclusive (t.answer i) ≡ false
      → attempt_from t i waited (delay ∷ (next ∷ delays))
        ≡ attempt_from t (suc i) (waited + delay) (next ∷ delays)
  unfolding attempt_from
  next_attempt i waited delay next delays live waiting h = ground (arith)

  extend :
      (i : ℕ)
      → ((j : ℕ) → j < i → is_conclusive (t.answer j) ≡ false)
      → is_conclusive (t.answer i) ≡ false
      → (j : ℕ) → j < suc i
      → is_conclusive (t.answer j) ≡ false
  extend i before h j lt = elim (dec_lt j i) [
    | yes p ↦ before j p
    | no p ↦ let e : j ≡ i = omega arith in rw e h
  ]

  attempt_from_decides :
      (i waited delay : ℕ) (delays : List ℕ)
      → ((j : ℕ) → t.ended j ≡ false)
      → ((j : ℕ) → t.ended_waiting j ≡ false)
      → ((j : ℕ) → j < i → is_conclusive (t.answer j) ≡ false)
      → (k m : ℕ) × (k ≡ i + m)
        × IsDecisive t (i + suc (length delays)) k
        × (attempt_from t i waited (delay ∷ delays)
            ≡ stop t (t.answer k) (suc k) (waited + sum (take m (delay ∷ delays))))
  attempt_from_decides i waited delay [] live waiting before =
      let none_waited : waited + 0 ≡ waited = omega arith in
      (
        i,
        0,
        omega arith,
        record { within = omega arith; earlier = before; settled = inr (omega arith) },
        rw none_waited (last_attempt i waited delay (live i)),
      )
  attempt_from_decides i waited delay (next ∷ delays) live waiting before =
      elim (Bool-cases (is_conclusive (t.answer i))) [
        | inl h ↦
            let none_waited : waited + 0 ≡ waited = omega arith in
            (
              i,
              0,
              omega arith,
              record { within = omega arith; earlier = before; settled = inl h },
              rw none_waited (settled_attempt i waited delay (next ∷ delays) (live i) h),
            )
        | inr h ↦
            let (k, m, at_k, d, e) =
              attempt_from_decides (suc i) (waited + delay) next delays live waiting
                (extend i before h) in
            (
              k,
              suc m,
              omega (arith, at_k),
              record {
                within = omega (arith, d.within);
                earlier = d.earlier;
                settled = elim d.settled [ inl c ↦ inl c | inr c ↦ inr (omega (arith, c)) ];
              },
              next_attempt i waited delay next delays (live i) (waiting i) h
                  ∙ e
                  ∙ ap (stop t (t.answer k) (suc k))
                      (add_assoc waited delay (sum (take m (next ∷ delays)))),
            )
      ]

  -- If the context does not end, the call comes to the answer of the first attempt that settles it,
  -- or of the last that the delays allow (one, if there are none); no further attempt is made, and
  -- the time waited for is that of the delays after the earlier attempts.
  pub with_retry_decides :
      (delays : List ℕ)
      → ((j : ℕ) → t.ended j ≡ false)
      → ((j : ℕ) → t.ended_waiting j ≡ false)
      → (k : ℕ) × IsDecisive t (budget delays) k
        × (with_retry t delays ≡ stop t (t.answer k) (suc k) (sum (take k delays)))
  unfolding with_retry
  with_retry_decides [] live waiting = (
    0,
    record {
      within = omega arith;
      earlier = λ i lt. absurd (omega (arith, lt));
      settled = inr (omega arith);
    },
    refl,
  )
  with_retry_decides (delay ∷ delays) live waiting =
      let (k, m, at_k, d, e) =
        attempt_from_decides 0 0 delay delays live waiting (λ j lt. absurd (omega (arith, lt))) in
      let same : m ≡ k = omega (arith, at_k) in
      (
        k,
        record {
          within = omega (arith, d.within);
          earlier = d.earlier;
          settled = elim d.settled [ inl c ↦ inl c | inr c ↦ inr (omega (arith, c)) ];
        },
        e
            ∙ ap (stop t (t.answer k) (suc k)) (
                zero-add (sum (take m (delay ∷ delays)))
                ∙ ap (λ n. sum (take n (delay ∷ delays))) same),
      )

  -- Whatever the context does, at most as many attempts are made as there are delays, and at least
  -- one is allowed.
  attempt_from_calls :
      (i waited : ℕ) (delay : ℕ) (delays : List ℕ)
      → (attempt_from t i waited (delay ∷ delays)).calls ≤ i + suc (length delays)
  unfolding attempt_from
  attempt_from_calls i waited delay [] = ground arith
  attempt_from_calls i waited delay (next ∷ delays) =
      ground (arith, attempt_from_calls (suc i) (waited + delay) next delays)

  pub with_retry_calls : (delays : List ℕ) → (with_retry t delays).calls ≤ budget delays
  unfolding with_retry
  with_retry_calls [] = omega arith
  with_retry_calls (delay ∷ delays) = omega (arith, attempt_from_calls 0 0 delay delays)
