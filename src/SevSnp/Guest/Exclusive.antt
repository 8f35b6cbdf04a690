-- ===== src/SevSnp/Guest/Exclusive.antt =====
-- `sev_guest_exclusive` and the callers' `with self._lock` around it (sentinel/sevsnp/guest.py), as a
-- machine whose callers take their steps in any order. Each caller is a thread; `silicon` says which
-- `SevSnpSilicon` it calls, `process` which process it is in.
use sentinel_subnet.Base.{
  ==_iff, Bool, Bool-cases, Option, ap, arith, false, if◌then◌else◌, inl, inr, none, refl, some,
  subst, sym, true, ℕ, ◌==◌, ◌∙◌, ◌≡◌, ◌≢◌, ◌⊎◌,
}

-- Where a call is: outside, with the object's lock, with the file open, inside with the file locked,
-- inside without, and leaving.
pub data Phase : Type 0 where
  outside locked opened guarded unguarded leaving : Phase

pub record Channel : Type 0 where
  pub phase : ℕ → Phase
  -- Who holds an object's lock, and who the file's
  pub held : ℕ → Option ℕ
  pub flocked : Option ℕ
  -- `_LOCK_WARNED`, by process
  pub warned : ℕ → Bool

abbrev pub idle : Channel
idle = record { phase = λ i. outside; held = λ x. none; flocked = none; warned = λ p. false }

-- `f` but for one argument
abbrev pub changed {ℓ} : {A : Type ℓ} → ℕ → A → (ℕ → A) → ℕ → A
changed i a f j = if i == j then a else f j

-- A request is with the firmware.
abbrev pub busy : Phase → Bool
busy guarded = true
busy unguarded = true
busy _ = false

module _ (silicon process : ℕ → ℕ) where
  -- One step of one caller
  pub data Step : Channel → Channel → Type 0 where
    -- `self._lock`, which one caller of the object has
    take_lock :
        {s : Channel} (i : ℕ)
        → s.phase i ≡ outside
        → s.held (silicon i) ≡ none
        → Step s (record s {
          phase = changed i locked s.phase;
          held = changed (silicon i) (some i) s.held;
        })
    -- `os.open`; where it raises, the call goes on without the file's lock, and says so once.
    open_file :
        {s : Channel} (i : ℕ)
        → s.phase i ≡ locked
        → Step s (record s { phase = changed i opened s.phase })
    open_raises :
        {s : Channel} (i : ℕ)
        → s.phase i ≡ locked
        → Step s (record s {
          phase = changed i unguarded s.phase;
          warned = changed (process i) true s.warned;
        })
    -- `fcntl.flock`, which waits until nobody has the file locked, or raises
    flock_taken :
        {s : Channel} (i : ℕ)
        → s.phase i ≡ opened
        → s.flocked ≡ none
        → Step s (record s { phase = changed i guarded s.phase; flocked = some i })
    flock_raises :
        {s : Channel} (i : ℕ)
        → s.phase i ≡ opened
        → Step s (record s { phase = changed i leaving s.phase })
    -- The request returns or raises; the file, if it is locked, is unlocked and closed.
    finish :
        {s : Channel} (i : ℕ)
        → s.phase i ≡ guarded
        → Step s (record s { phase = changed i leaving s.phase; flocked = none })
    finish_unguarded :
        {s : Channel} (i : ℕ)
        → s.phase i ≡ unguarded
        → Step s (record s { phase = changed i leaving s.phase })
    -- The end of `with self._lock`
    release_lock :
        {s : Channel} (i : ℕ)
        → s.phase i ≡ leaving
        → Step s
            (record s { phase = changed i outside s.phase; held = changed (silicon i) none s.held })

  -- The channel after some steps, each of any caller's
  pub data Reaches : Channel → Channel → Type 0 where
    here : {s : Channel} → Reaches s s
    next : {s t u : Channel} → Reaches s t → Step t u → Reaches s u

  abbrev pub in_flight : Channel → ℕ → Bool
  in_flight s i = busy (s.phase i)

  -- Who is inside has what it went through: the object's lock, and the file's or a failure to open it
  -- that was told.
  abbrev Fits : ℕ → Phase → Channel → Type 0
  Fits i p s =
      (p ≢ outside → s.held (silicon i) ≡ some i)
      × (p ≡ guarded → s.flocked ≡ some i)
      × (p ≡ unguarded → s.warned (process i) ≡ true)

  abbrev Inv : Channel → Type 0
  Inv s = (i : ℕ) → Fits i (s.phase i) s

  idle_fits : Inv idle
  idle_fits i = ((λ inside. absurd (inside refl)), (λ e. cc e), (λ e. cc e))

  -- A step of `i` keeps the invariant if `i` fits, and the other callers still do.
  step_of :
      (i : ℕ) (q : Phase) (s t : Channel)
      → Inv s
      → t.phase ≡ changed i q s.phase
      → Fits i q t
      → ((j : ℕ) → i ≢ j → Fits j (s.phase j) s → Fits j (s.phase j) t)
      → Inv t
  step_of i q s t inv phases own others j = elim (Bool-cases (i == j)) [
    | inl mine ↦
        let now : q ≡ t.phase j = sym (ap (λ f. f j) phases ∙ rw mine refl) in
        subst (λ p. Fits j p t) now (subst (λ x. Fits x q t) ((==_iff i j).0 mine) own)
    | inr other ↦
        let now : s.phase j ≡ t.phase j = sym (ap (λ f. f j) phases ∙ rw other refl) in
        subst (λ p. Fits j p t) now (others j (λ e. ground (arith, e, other)) (inv j))
  ]

  changed_self : {A : Type 0} (i : ℕ) (a : A) (f : ℕ → A) → changed i a f i ≡ a
  changed_self i a f = ground arith

  changed_kept : (i j : ℕ) (f : ℕ → Bool) → f j ≡ true → changed i true f j ≡ true
  changed_kept i j f h = ground arith

  Step-Inv : {s t : Channel} → Step s t → Inv s → Inv t
  Step-Inv {s} {t} (take_lock i at free) inv =
      step_of i locked s t inv refl
        ((λ _. changed_self (silicon i) (some i) s.held), (λ e. cc e), (λ e. cc e))
        (λ j other fits. ((λ inside. ground (arith, fits.0 inside, free)), fits.1, fits.2))
  Step-Inv {s} {t} (open_file i at) inv =
      step_of i opened s t inv refl ((λ _. (inv i).0 (λ e. cc (e, at))), (λ e. cc e), (λ e. cc e))
        (λ j other fits. fits)
  Step-Inv {s} {t} (open_raises i at) inv =
      step_of i unguarded s t inv refl
        (
          (λ _. (inv i).0 (λ e. cc (e, at))),
          (λ e. cc e),
          (λ e. changed_self (process i) true s.warned),
        )
        (λ j other fits.
          (fits.0, fits.1, (λ e. changed_kept (process i) (process j) s.warned (fits.2 e))))
  Step-Inv {s} {t} (flock_taken i at free) inv =
      step_of i guarded s t inv refl ((λ _. (inv i).0 (λ e. cc (e, at))), (λ e. refl), (λ e. cc e))
        (λ j other fits. (fits.0, (λ e. cc (fits.1 e, free)), fits.2))
  Step-Inv {s} {t} (flock_raises i at) inv =
      step_of i leaving s t inv refl ((λ _. (inv i).0 (λ e. cc (e, at))), (λ e. cc e), (λ e. cc e))
        (λ j other fits. fits)
  Step-Inv {s} {t} (finish i at) inv =
      step_of i leaving s t inv refl ((λ _. (inv i).0 (λ e. cc (e, at))), (λ e. cc e), (λ e. cc e))
        (λ j other fits. (
          fits.0,
          (λ e.
              let mine : some j ≡ some i = cc (fits.1 e, (inv i).1 at) in absurd (other (cc mine))),
          fits.2,
        ))
  Step-Inv {s} {t} (finish_unguarded i at) inv =
      step_of i leaving s t inv refl ((λ _. (inv i).0 (λ e. cc (e, at))), (λ e. cc e), (λ e. cc e))
        (λ j other fits. fits)
  Step-Inv {s} {t} (release_lock i at) inv =
      step_of i outside s t inv refl ((λ inside. absurd (inside refl)), (λ e. cc e), (λ e. cc e))
        (λ j other fits.
          ((λ inside. ground (arith, fits.0 inside, (inv i).0 (λ e. cc (e, at)))), fits.1, fits.2))

  Reaches-Inv : {s : Channel} → Reaches idle s → Inv s
  Reaches-Inv here = idle_fits
  Reaches-Inv (next run step) = Step-Inv step (Reaches-Inv run)

  in_flight-cases :
      (s : Channel) (i : ℕ) → in_flight s i ≡ true → (s.phase i ≡ guarded) ⊎ (s.phase i ≡ unguarded)
  in_flight-cases s i h = ground arith

  -- Two requests of different callers are with the firmware at once only if they are of different
  -- objects and for one of them the lock file could not be opened, which its process has then logged:
  -- as long as the file can be opened there is at most one request, whatever the order of the steps.
  pub at_most_one :
      {s : Channel} (i j : ℕ)
      → Reaches idle s
      → in_flight s i ≡ true
      → in_flight s j ≡ true
      → i ≢ j
      → (silicon i ≢ silicon j)
        × (((s.phase i ≡ unguarded) × (s.warned (process i) ≡ true))
            ⊎ ((s.phase j ≡ unguarded) × (s.warned (process j) ≡ true)))
  at_most_one {s} i j run first second other =
      let inv = Reaches-Inv run in
      let held_by : (x : ℕ) → in_flight s x ≡ true → s.held (silicon x) ≡ some x =
        λ x flies. (inv x).0 (λ away. cc (flies, ap busy away)) in
      (
        λ same.
            let both : some i ≡ some j =
              sym (held_by i first) ∙ ap s.held same ∙ held_by j second in
            other (cc both),
        elim (in_flight-cases s i first) [
          | inr failed ↦ inl (failed, (inv i).2 failed)
          | inl one ↦ elim (in_flight-cases s j second) [
            | inr failed ↦ inr (failed, (inv j).2 failed)
            | inl two ↦
                let both : some i ≡ some j = sym ((inv i).1 one) ∙ (inv j).1 two in
                absurd (other (cc both))
          ]
        ],
      )
