-- ===== src/Worker/Settings.antt =====
-- The settings of a worker: the constructor and the setters of src/worker.cc, `CanAcceptTask`, and
-- the test of `MaybePublishHeartbeat` on the steady clock. `fail` is the `std::invalid_argument`
-- that they throw.
use crunchytask.Common.{
  ℕ, ◌≤◌, ℤ, pos, ◌-ℤ◌, ◌<ℤ◌, ltb, ltb_ℤ, String, ◌≡◌, Bool, true, false, not, Option, none, some,
  List, [], ◌∷◌, if◌then◌else◌, arith, refl, sym, ◌∙◌, Bool-cases, inl, inr,
}
use mathlib.Core.Path.{subst}
use crunchytask.ParseResult.{ParseResult, ok, fail, ◌>>=◌}
use crunchytask.Config.{
  config_valid, ConfigValidation, validate_worker_concurrency, validate_poll_interval,
  validate_visibility_timeout,
}
use crunchytask.Pool.{State, in_flight_count}

pub record Settings : Type 0 where
  pub concurrency : ℕ
  pub poll_interval : ℤ
  pub visibility_timeout : ℤ
  pub heartbeat_interval : ℤ

-- `ThrowIfInvalid`, and then the rest.
unfoldable pub throw_if_invalid {ℓ} : {A : Type ℓ} → ConfigValidation → A → ParseResult A
throw_if_invalid (ok v) rest = ok rest
throw_if_invalid (fail e) rest = fail e

-- The constructor checks the defaults of the fields too.
unfoldable pub construct : ℕ → ParseResult Settings
unfolding throw_if_invalid
construct concurrency = validate_worker_concurrency concurrency >>= λ _.
    validate_poll_interval (pos 100) >>= λ _. validate_visibility_timeout (pos 30000) >>= λ _.
    throw_if_invalid (validate_poll_interval (pos 5000)) (record {
      concurrency = concurrency;
      poll_interval = pos 100;
      visibility_timeout = pos 30000;
      heartbeat_interval = pos 5000;
    })

pub data Setter : Type 0 where
  set_poll_interval set_visibility_timeout set_heartbeat_interval : ℤ → Setter

unfoldable pub set : Setter → Settings → ParseResult Settings
unfolding throw_if_invalid
set (set_poll_interval interval) s =
    throw_if_invalid (validate_poll_interval interval) (record s { poll_interval = interval })
set (set_visibility_timeout timeout) s =
    throw_if_invalid (validate_visibility_timeout timeout)
      (record s { visibility_timeout = timeout })
set (set_heartbeat_interval interval) s =
    throw_if_invalid (validate_poll_interval interval) (record s { heartbeat_interval = interval })

-- A setter that throws leaves the worker as it was.
abbrev pub kept_or_set : Settings → ParseResult Settings → Settings
kept_or_set s (ok t) = t
kept_or_set s (fail e) = s

unfoldable pub set_all : List Setter → Settings → Settings
unfolding set
set_all [] s = s
set_all (c ∷ cs) s = set_all cs (kept_or_set s (set c s))

unfoldable pub can_accept_task : {A : Type 0} → Settings → State A → Bool
unfolding in_flight_count
can_accept_task settings pool = ltb (in_flight_count pool) settings.concurrency

-- Whether a heartbeat is published. `none` is the time point that the field starts with, the epoch of
-- the steady clock; a reading of the clock is never that epoch.
unfoldable pub heartbeat_due : Settings → Option ℤ → ℤ → Bool
heartbeat_due s none now = true
heartbeat_due s (some last) now = not (ltb_ℤ (now -ℤ last) s.heartbeat_interval)

-- Every setting is positive.
pub record SettingsValid (s : Settings) : Type 0 where
  pub concurrent : 1 ≤ s.concurrency
  pub polls : pos 0 <ℤ s.poll_interval
  pub times_out : pos 0 <ℤ s.visibility_timeout
  pub beats : pos 0 <ℤ s.heartbeat_interval

throw_if_invalid-SettingsValid :
    (checked : ConfigValidation) (s t : Settings)
    → SettingsValid s
    → (checked ≡ ok config_valid → SettingsValid t)
    → SettingsValid (kept_or_set s (throw_if_invalid checked t))
unfolding throw_if_invalid
throw_if_invalid-SettingsValid (ok config_valid) s t h f = f refl
throw_if_invalid-SettingsValid (fail e) s t h f = h

poll_positive :
    (interval : ℤ) → validate_poll_interval interval ≡ ok config_valid → pos 0 <ℤ interval
unfolding validate_poll_interval
poll_positive interval e = ground arith

timeout_positive :
    (timeout : ℤ) → validate_visibility_timeout timeout ≡ ok config_valid → pos 0 <ℤ timeout
unfolding validate_visibility_timeout
timeout_positive timeout e = ground arith

set-SettingsValid :
    (c : Setter) (s : Settings) → SettingsValid s → SettingsValid (kept_or_set s (set c s))
unfolding set
set-SettingsValid (set_poll_interval i) s h =
    throw_if_invalid-SettingsValid (validate_poll_interval i) s _ h (λ e. record {
      concurrent = h.concurrent;
      polls = poll_positive i e;
      times_out = h.times_out;
      beats = h.beats;
    })
set-SettingsValid (set_visibility_timeout i) s h =
    throw_if_invalid-SettingsValid (validate_visibility_timeout i) s _ h (λ e. record {
      concurrent = h.concurrent;
      polls = h.polls;
      times_out = timeout_positive i e;
      beats = h.beats;
    })
set-SettingsValid (set_heartbeat_interval i) s h =
    throw_if_invalid-SettingsValid (validate_poll_interval i) s _ h (λ e. record {
      concurrent = h.concurrent;
      polls = h.polls;
      times_out = h.times_out;
      beats = poll_positive i e;
    })

set_all-SettingsValid :
    (cs : List Setter) (s : Settings) → SettingsValid s → SettingsValid (set_all cs s)
unfolding set_all
set_all-SettingsValid [] s h = h
set_all-SettingsValid (c ∷ cs) s h = set_all-SettingsValid cs _ (set-SettingsValid c s h)

abbrev defaults : ℕ → Settings
defaults n = record {
  concurrency = n;
  poll_interval = pos 100;
  visibility_timeout = pos 30000;
  heartbeat_interval = pos 5000;
}

construct_lem :
    (n : ℕ)
    → construct n ≡ (if ltb n 1 then fail "worker concurrency must be >= 1" else ok (defaults n))
unfolding construct throw_if_invalid validate_worker_concurrency validate_poll_interval
    validate_visibility_timeout
construct_lem n = elim (Bool-cases (ltb n 1)) [ inl e ↦ rw e refl | inr e ↦ rw e refl ]

defaults-SettingsValid : (n : ℕ) → ltb n 1 ≡ false → SettingsValid (defaults n)
defaults-SettingsValid n e = record {
  concurrent = ground arith;
  polls = omega arith;
  times_out = omega arith;
  beats = omega arith;
}

construct-SettingsValid : (n : ℕ) (s : Settings) → construct n ≡ ok s → SettingsValid s
construct-SettingsValid n s e = elim (Bool-cases (ltb n 1)) [
  | inl q ↦
      absurd (ne {m = "worker concurrency must be >= 1"} (sym (construct_lem n ∙ rw q refl) ∙ e))
  | inr q ↦
      let p : construct n ≡ ok (defaults n) = construct_lem n ∙ rw q refl in
      subst (kept_is SettingsValid) (sym p ∙ e) (defaults-SettingsValid n q)
]
  where
    ne : {m : String} → fail m ≡ ok s → ⊥
    ne h = cc

    kept_is : (Settings → Type 0) → ParseResult Settings → Type 0
    kept_is P (ok t) = P t
    kept_is P (fail m) = Unit

-- A worker that could be constructed has positive settings after any sequence of calls of its
-- setters, those that throw included.
pub construct-set_all-SettingsValid :
    (concurrency : ℕ) (s : Settings) (setters : List Setter)
    → construct concurrency ≡ ok s
    → SettingsValid (set_all setters s)
construct-set_all-SettingsValid concurrency s setters e =
    set_all-SettingsValid setters s (construct-SettingsValid concurrency s e)
