-- ===== src/Services/Release/Reports.antt =====
-- Installations in the background, interleaved in any order, and what their callbacks are told.
use mathlib.Core.Path.{subst}
use mathlib.Core.List.{append_assoc, append-nil}
use onyxia_backend.Common.{
  ℕ, zero, suc, ◌+◌, ◌*◌, ◌≤◌, ◌<◌, String, ◌≡◌, ◌⊎◌, inl, inr, refl, ap, sym, ◌∙◌, List, [], ◌∷◌,
  ◌++◌, Result, ok, err, Error, Bool, true, false, if◌then◌else◌, length, arith, Bool-cases,
}
use onyxia_backend.Common.Text.{same}
use onyxia_backend.Services.Release.{
  Event, Receiver, global, per_call, on_start, on_success, on_error, callbacks,
}

-- The goroutines by their numbers, each with the callbacks that it has still to make, and the
-- callbacks that were made
pub record System : Type 0 where
  pub pending : ℕ → List Event
  pub trace : List (ℕ × Event)

abbrev pub update : (ℕ → List Event) → ℕ → List Event → ℕ → List Event
update f i es j = if same i j then es else f j

-- A goroutine makes its next callback.
pub data Step (n : ℕ) (s t : System) : Type 0 where
  call :
      (i : ℕ) (e : Event) (es : List Event)
      → i < n
      → s.pending i ≡ e ∷ es
      → t ≡ record { pending = update s.pending i es; trace = s.trace ++ (i, e) ∷ [] }
      → Step n s t

-- `n` goroutines were started, with these callbacks to make; `k` callbacks later.
pub data Reach (n : ℕ) (script : ℕ → List Event) : ℕ → System → Type 0 where
  start : Reach n script zero (record { pending = script; trace = [] })
  later : {k : ℕ} {s t : System} → Reach n script k s → Step n s t → Reach n script (suc k) t

-- The callbacks that the goroutine `i` made
unfoldable pub heard : ℕ → List (ℕ × Event) → List Event
heard i [] = []
heard i ((j, e) ∷ t) = let rest = heard i t in if same j i then e ∷ rest else rest

-- How many callbacks the first `n` goroutines have still to make
unfoldable pub left : ℕ → (ℕ → List Event) → ℕ
left zero f = 0
left (suc n) f = length (f n) + left n f

heard-append :
    (i j : ℕ) (e : Event) (t : List (ℕ × Event))
    → heard i (t ++ (j, e) ∷ []) ≡ (if same j i then heard i t ++ e ∷ [] else heard i t)
unfolding heard
heard-append i j e [] = ground arith
heard-append i j e ((k, d) ∷ t) = ground (arith, heard-append i j e t)

Step-heard :
    {n : ℕ} {s t : System}
    → Step n s t
    → (i : ℕ) → heard i t.trace ++ t.pending i ≡ heard i s.trace ++ s.pending i
unfolding heard
Step-heard {s = s} (call j e es h p q) i = elim (Bool-cases (same j i)) [
  | inl m ↦
      let j' : j ≡ i = ground arith in
      rw q (
        ground (
          arith,
          heard-append i j e s.trace,
          append_assoc (heard i s.trace) (e ∷ []) es,
          ap s.pending j',
        ))
  | inr m ↦ rw q (ground (arith, heard-append i j e s.trace))
]

-- What was made and what is left is what was there to make.
Reach-heard :
    {n : ℕ} {script : ℕ → List Event} {k : ℕ} {s : System}
    → Reach n script k s
    → (i : ℕ) → heard i s.trace ++ s.pending i ≡ script i
unfolding heard
Reach-heard start i = refl
Reach-heard (later r st) i = Step-heard st i ∙ Reach-heard r i

left-other :
    (n i : ℕ) (f : ℕ → List Event) (es : List Event) → n ≤ i → left n (update f i es) ≡ left n f
unfolding left
left-other zero i f es h = refl
left-other (suc n) i f es h = ground (arith, left-other n i f es)

left-update :
    (n i : ℕ) (f : ℕ → List Event) (e : Event) (es : List Event)
    → i < n
    → f i ≡ e ∷ es
    → left n f ≡ suc (left n (update f i es))
unfolding left
left-update zero i f e es h p = absurd (omega arith)
left-update (suc n) i f e es h p = elim (Bool-cases (same i n)) [
  | inl q ↦
      let i' : i ≡ n = ground arith in ground (arith, left-other n i f es, ap length p, ap f i')
  | inr q ↦ ground (arith, left-update n i f e es)
]

Reach-left :
    {n : ℕ} {script : ℕ → List Event} {k : ℕ} {s : System}
    → Reach n script k s
    → k + left n s.pending ≡ left n script
Reach-left start = omega arith
Reach-left {n = n} (later {s = s} r (call i e es h p q)) =
    ground (arith, Reach-left r, left-update n i s.pending e es h p)

List-cases : (es : List Event) → (es ≡ []) ⊎ ((d : Event) × (ds : List Event) × (es ≡ d ∷ ds))
List-cases [] = inl refl
List-cases (d ∷ ds) = inr (d, ds, refl)

-- A goroutine that has a callback left, if there is one
some_left :
    (n : ℕ) (f : ℕ → List Event)
    → (left n f ≡ 0) ⊎ ((i : ℕ) × (e : Event) × (es : List Event) × (i < n) × (f i ≡ e ∷ es))
unfolding left
some_left zero f = inl refl
some_left (suc n) f = elim (List-cases (f n)) [
  | inr (e, es, p) ↦ inr (n, e, es, omega arith, p)
  | inl p ↦ elim (some_left n f) [
    | inl z ↦ inl (omega (arith, ap length p))
    | inr (i, e, es, h, q) ↦ inr (i, e, es, omega arith, q)
  ]
]

left-of-none : (n : ℕ) (f : ℕ → List Event) → left n f ≡ 0 → (i : ℕ) → i < n → f i ≡ []
unfolding left
left-of-none zero f h i b = absurd (omega arith)
left-of-none (suc n) f h i b = elim (Bool-cases (same i n)) [
  | inl q ↦
      let i' : i ≡ n = ground arith in
      elim (List-cases (f n)) [
        | inl p ↦ rw i' p
        | inr (e, es, p) ↦ absurd (omega (arith, ap length p))
      ]
  | inr q ↦ left-of-none n f (omega arith) i (ground arith)
]

left-callbacks :
    (n : ℕ) (release chart : ℕ → String) (outcome : ℕ → Result (Unit {0}))
    → left n (λ i. callbacks (release i) (chart i) (outcome i)) ≡ 4 * n
unfolding left callbacks
left-callbacks zero release chart outcome = refl
left-callbacks (suc n) release chart outcome =
    ground (arith, left-callbacks n release chart outcome)

-- What was told to the callbacks of a receiver
abbrev pub is_told : Receiver → Event → Bool
is_told global (on_start global r c) = true
is_told global (on_success global r c) = true
is_told global (on_error global r c e) = true
is_told per_call (on_start per_call r c) = true
is_told per_call (on_success per_call r c) = true
is_told per_call (on_error per_call r c e) = true
is_told _ _ = false

abbrev pub told_to : Receiver → List Event → List Event
told_to to [] = []
told_to to (e ∷ es) = let rest = told_to to es in if is_told to e then e ∷ rest else rest

-- The same notice to the callbacks of the call
abbrev pub for_call : Event → Event
for_call (on_start to r c) = on_start per_call r c
for_call (on_success to r c) = on_success per_call r c
for_call (on_error to r c e) = on_error per_call r c e

abbrev pub each_twice : List Event → List Event
each_twice [] = []
each_twice (e ∷ es) = e ∷ for_call e ∷ each_twice es

-- What the callbacks of a receiver are told of an installation that comes to `outcome`: that it
-- starts, and then once how it ended; no success is told of a failure, and no failure of a success.
pub record HearsOutcome (release chart : String) (outcome : Result (Unit {0})) (to : Receiver)
    (told : List Event) : Type 0 where
  pub success :
      outcome ≡ ok tt → told ≡ on_start to release chart ∷ on_success to release chart ∷ []
  pub failure :
      (e : Error)
      → outcome ≡ err e
      → told ≡ on_start to release chart ∷ on_error to release chart e ∷ []

callbacks-HearsOutcome :
    (release chart : String) (outcome : Result (Unit {0})) (to : Receiver)
    → HearsOutcome release chart outcome to (told_to to (callbacks release chart outcome))
unfolding callbacks
callbacks-HearsOutcome release chart (ok u) global = record {
  success = λ h. refl;
  failure = λ e h. ground arith;
}
callbacks-HearsOutcome release chart (ok u) per_call = record {
  success = λ h. refl;
  failure = λ e h. ground arith;
}
callbacks-HearsOutcome release chart (err d) global = record {
  success = λ h. ground arith;
  failure = λ e h. ground arith;
}
callbacks-HearsOutcome release chart (err d) per_call = record {
  success = λ h. ground arith;
  failure = λ e h. ground arith;
}

callbacks-each_twice :
    (release chart : String) (outcome : Result (Unit {0}))
    → callbacks release chart outcome
      ≡ each_twice (told_to global (callbacks release chart outcome))
unfolding callbacks
callbacks-each_twice release chart (ok u) = refl
callbacks-each_twice release chart (err e) = refl

module _ (n : ℕ) (release chart : ℕ → String) (outcome : ℕ → Result (Unit {0})) {k : ℕ} {s : System}
    (run : Reach n (λ i. callbacks (release i) (chart i) (outcome i)) k s) where
  all_heard :
      k ≡ 4 * n → (i : ℕ) → i < n → heard i s.trace ≡ callbacks (release i) (chart i) (outcome i)
  all_heard all i h =
      let count = Reach-left run in
      let total = left-callbacks n release chart outcome in
      let none_left = left-of-none n s.pending (omega (arith, count, total)) i h in
      sym (append-nil (heard i s.trace))
      ∙ ap (λ es. heard i s.trace ++ es) (sym none_left)
      ∙ Reach-heard run i

  -- However `n` installations in the background are interleaved: at most four callbacks are made
  -- for each; while fewer were made, another can be made; and once all are made, the callbacks of
  -- the gateway, and those of the call, were each told of each installation that it starts and then
  -- that it succeeded, if running it did, or that it failed, with the error, if running it failed,
  -- and nothing else; and each notice went to the gateway's callbacks and then at once to the call's.
  pub all_reported :
      (k ≤ 4 * n)
      × (k < 4 * n → (t : System) × Step n s t)
      × (k ≡ 4 * n
          → (i : ℕ) → i < n
          → ((to : Receiver)
              → HearsOutcome (release i) (chart i) (outcome i) to (told_to to (heard i s.trace)))
            × (heard i s.trace ≡ each_twice (told_to global (heard i s.trace))))
  all_reported =
      let count = Reach-left run in
      let total = left-callbacks n release chart outcome in
      (
        omega (arith, count, total),
        λ more. elim (some_left n s.pending) [
          | inl z ↦ absurd (omega (arith, count, total))
          | inr (i, e, es, h, p) ↦ (_, call i e es h p refl)
        ],
        λ all i h.
            let whole = sym (all_heard all i h) in
            (
              λ to.
                  subst (λ es. HearsOutcome (release i) (chart i) (outcome i) to (told_to to es))
                    whole (callbacks-HearsOutcome (release i) (chart i) (outcome i) to),
              subst (λ es. es ≡ each_twice (told_to global es)) whole
                  (callbacks-each_twice (release i) (chart i) (outcome i)),
            ),
      )
