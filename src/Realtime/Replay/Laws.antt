-- ===== src/Realtime/Replay/Laws.antt =====
-- The buffer against the whole history of the connection: it holds the newest envelopes, and
-- `after` answers with the rest of the history exactly when it still can.
use jiuyue.Base.{
  ltb, length, drop, select, last, ℕ, suc, ◌+◌, ◌-◌, ◌≤◌, ◌<◌, ◌≡◌, refl, subst, some, List, [],
  ◌∷◌, ◌++◌, arith, dec_lt, sym, ap, length-append, Bool-cases, drop-nil, append-regroup, ◌==◌, ◌∙◌,
  inl, ◌∙◌, append_assoc, inr, if◌then◌else◌, leb, not, ◌&&◌, is_empty, ◌&&◌, none, Option, false,
  drop-append_right,
}
-- none
use jiuyue.Contract.{ServerEnvelope}
use jiuyue.Realtime.Replay.{ReplayBuffer, new, record_envelope, after}
use jiuyue.Base.Word.{u64_max}

-- The sequences run on from `n`, one by one.
abbrev pub Consecutive : ℕ → List ServerEnvelope → Type 0
Consecutive n [] = Unit
Consecutive n (e ∷ es) = (e.sequence ≡ suc n) × Consecutive (suc n) es

-- The history is what was evicted and what is retained; nothing is evicted before the buffer is full.
pub record Tracks (b : ReplayBuffer) (history : List ServerEnvelope) : Type 0 where
  pub evicted : List ServerEnvelope
  pub whole : history ≡ evicted ++ b.envelopes
  pub numbered : Consecutive 0 history
  pub positive : 0 < b.capacity
  pub bounded : length b.envelopes ≤ b.capacity
  pub eager : length b.envelopes < b.capacity → evicted ≡ []

pub Tracks-new : (capacity : ℕ) → Tracks (new capacity) []
unfolding new
Tracks-new capacity = record {
  evicted = [];
  whole = refl;
  numbered = tt;
  positive = omega arith;
  bounded = omega arith;
  eager = λ h. refl;
}

pub Consecutive-append :
    (n : ℕ) (es : List ServerEnvelope) (e : ServerEnvelope)
    → Consecutive n es
    → e.sequence ≡ suc (n + length es)
    → Consecutive n (es ++ e ∷ [])
Consecutive-append n [] e c h = (omega arith, tt)
Consecutive-append n (x ∷ es) e c h = (c.0, Consecutive-append (suc n) es e c.1 (omega arith))

pub Consecutive-drop :
    (n : ℕ) (xs ys : List ServerEnvelope)
    → Consecutive n (xs ++ ys)
    → Consecutive (n + length xs) ys
Consecutive-drop n [] ys c = subst (λ k. Consecutive k ys) (omega arith) c
Consecutive-drop n (x ∷ xs) ys c =
    subst (λ k. Consecutive k ys) (omega arith) (Consecutive-drop (suc n) xs ys c.1)

last-Consecutive :
    (n : ℕ) (e : ServerEnvelope) (es : List ServerEnvelope)
    → Consecutive n (e ∷ es)
    → (x : ServerEnvelope) × (last (e ∷ es) ≡ some x) × (x.sequence ≡ n + length (e ∷ es))
last-Consecutive n e [] c = (e, refl, omega arith)
last-Consecutive n e (f ∷ es) c =
    let (x, found, at_end) = last-Consecutive (suc n) f es c.1 in (x, found, omega arith)

select_all :
    (n k : ℕ) (es : List ServerEnvelope)
    → k ≤ n
    → Consecutive n es
    → select (λ e. ltb k e.sequence) es ≡ es
select_all n k [] h c = refl
select_all n k (e ∷ es) h c = ground (arith, select_all (suc n) k es (omega arith) c.1)

select-drop :
    (n k : ℕ) (es : List ServerEnvelope)
    → n ≤ k
    → Consecutive n es
    → select (λ e. ltb k e.sequence) es ≡ drop (k - n) es
select-drop n k [] h c = sym (drop-nil (k - n))
select-drop n k (e ∷ es) h c = elim (dec_lt n k) [
  | yes later ↦
      let step : k - n ≡ suc (k - suc n) = omega arith in
      rw step (ground (arith, select-drop (suc n) k es later c.1))
  | no here ↦
      let step : k - n ≡ 0 = omega arith in rw step (select_all n k (e ∷ es) (omega arith) c)
]

-- The oldest envelope goes to the evicted ones.
shift :
    (evicted : List ServerEnvelope) (x : ServerEnvelope) (es : List ServerEnvelope)
    (e : ServerEnvelope)
    → (evicted ++ x ∷ es) ++ e ∷ [] ≡ (evicted ++ x ∷ []) ++ (es ++ e ∷ [])
shift evicted x es e =
    ap (λ l. l ++ e ∷ []) (append-regroup evicted x es)
    ∙ append_assoc (evicted ++ x ∷ []) es (e ∷ [])

Tracks-full :
    (c : ℕ) (evicted : List ServerEnvelope) (e : ServerEnvelope) (es history : List ServerEnvelope)
    → history ≡ evicted ++ es
    → Consecutive 0 (history ++ e ∷ [])
    → 0 < c
    → length es ≡ c
    → Tracks (record { capacity = c; envelopes = drop 1 es ++ e ∷ [] }) (history ++ e ∷ [])
Tracks-full c evicted e [] history whole numbered h full = absurd (omega arith)
Tracks-full c evicted e (x ∷ es) history whole numbered h full = record {
  evicted = evicted ++ x ∷ [];
  whole = rw whole (shift evicted x es e);
  numbered = numbered;
  positive = h;
  bounded = omega (arith, length-append es (e ∷ []));
  eager = λ room. absurd (omega (arith, length-append es (e ∷ [])));
}

-- Recording the next envelope of the connection keeps the buffer a window on its history.
pub record_envelope-Tracks :
    (b : ReplayBuffer) (history : List ServerEnvelope) (e : ServerEnvelope)
    → Tracks b history
    → e.sequence ≡ suc (length history)
    → Tracks (record_envelope b e) (history ++ e ∷ [])
unfolding record_envelope
record_envelope-Tracks b history e t next = elim (Bool-cases (length b.envelopes == b.capacity)) [
  | inl full ↦ rw full (
      Tracks-full b.capacity t.evicted e b.envelopes history t.whole numbered t.positive
        (ground arith))
  | inr room ↦
      let spare : length b.envelopes < b.capacity = ground arith in
      rw room (record {
        evicted = t.evicted;
        whole = rw t.whole (append_assoc t.evicted b.envelopes (e ∷ []));
        numbered = numbered;
        positive = t.positive;
        bounded = omega (arith, length-append b.envelopes (e ∷ []));
        eager = λ more. t.eager spare;
      })
]
  where
    numbered : Consecutive 0 (history ++ e ∷ [])
    numbered = Consecutive-append 0 history e t.numbered (omega arith)

-- What `after` computes on a buffer that is not empty.
after_window :
    (n k : ℕ) (b : ReplayBuffer) (e : ServerEnvelope) (es : List ServerEnvelope)
    → b.envelopes ≡ e ∷ es
    → Consecutive n (e ∷ es)
    → n + length (e ∷ es) < u64_max
    → after b k
      ≡ (if leb n k && leb k (n + length (e ∷ es)) then some (drop (k - n) (e ∷ es)) else none)
unfolding after
after_window n k b e es at c room =
    let (x, found, at_end) = last-Consecutive n e es c in
    rw at (
      rw found (elim (dec_lt k n) [
        | yes early ↦ ground arith
        | no late ↦ rw (select-drop n k (e ∷ es) (omega arith) c) (ground arith)
      ]))

abbrev pub answer_of : List ServerEnvelope → List ServerEnvelope → ℕ → Option (List ServerEnvelope)
answer_of evicted history k =
    if not (is_empty history) && (leb (length evicted) k && leb k (length history))
    then some (drop k history)
    else none

is_empty-append :
    (xs : List ServerEnvelope) (y : ServerEnvelope) (ys : List ServerEnvelope)
    → is_empty (xs ++ y ∷ ys) ≡ false
is_empty-append [] y ys = refl
is_empty-append (x ∷ xs) y ys = refl

after-answer_of :
    (b : ReplayBuffer) (evicted es : List ServerEnvelope) (k : ℕ)
    → b.envelopes ≡ es
    → (es ≡ [] → evicted ≡ [])
    → Consecutive 0 (evicted ++ es)
    → length (evicted ++ es) < u64_max
    → after b k ≡ answer_of evicted (evicted ++ es) k
unfolding after
after-answer_of b evicted [] k at eager c room = rw (at, eager refl)
after-answer_of b evicted (x ∷ es) k at eager c room = ground (
  arith,
  after_window (length evicted) k b x es at retained,
  length-append evicted (x ∷ es),
  is_empty-append evicted x es,
  drop-append_right k evicted (x ∷ es),
)
  where
    retained : Consecutive (length evicted) (x ∷ es)
    retained =
        subst (λ n. Consecutive n (x ∷ es)) (omega arith) (Consecutive-drop 0 evicted (x ∷ es) c)

-- The answer to a resume position: if anything was sent, the rest of the history when all of it is
-- retained and the position was reached, and otherwise a refusal; before anything was sent, a
-- refusal.
pub after-Tracks :
    (b : ReplayBuffer) (history : List ServerEnvelope) (k : ℕ) (t : Tracks b history)
    → length history < u64_max
    → after b k ≡ (
        if not (is_empty history) && (leb (length t.evicted) k && leb k (length history))
        then some (drop k history)
        else none)
after-Tracks b history k t room =
    subst (λ h. after b k ≡ answer_of t.evicted h k) (sym t.whole)
      (after-answer_of b t.evicted b.envelopes k refl
        (λ e. t.eager (omega (arith, ap length e, t.positive)))
        (subst (Consecutive 0) t.whole t.numbered) (omega (arith, ap length t.whole)))
