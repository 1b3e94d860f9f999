-- ===== src/Store/Tracked.antt =====
-- What the store keeps true of a job's snapshot and of its entries in the work indexes. The rules
-- here build the proof for a plan from its parts; the modules below have the plans.

pub mod Spared
pub mod Kept
pub mod Histories
use search_trust_rd.Prelude.{
  ℕ, ◌<◌, ◌≡◌, refl, inl, inr, Bool, true, false, Option, none, some, List, [], ◌==◌, Number, whole,
  is_some, Bool-cases, ==_iff, if◌then◌else◌,
}
use search_trust_rd.Model.{JobState, is_valid, terminal, Result, ok, err}
use search_trust_rd.Redis.{
  state, active, sync_pending, recovery_pending, lease, job, gets_after, zscores_after,
}
use search_trust_rd.Transaction.{stop, commit}
use search_trust_rd.Store.Base.{
  JobValue, state_json, request_json, identity_json, lease_text, JobCommand, JobPlan, decode_state,
  with_state,
}
use search_trust_rd.Store.History.{commands_of}

-- A job is in the active index exactly while it is not terminal, and every revision that the audit
-- owner has not received is pending with that revision.
pub record Tracked (j : ℕ) (s : JobState) (ac sy : Option Number) : Type 0 where
  pub own : s.job_id ≡ j
  pub valid : is_valid s ≡ true
  pub active_iff : is_some ac ≡ (if terminal s then false else true)
  pub unsynced : s.callback_synced_revision < s.revision → sy ≡ some (whole s.revision)

abbrev pub Consistent : ℕ → Option JobValue → Option Number → Option Number → Type 0
Consistent j none ac sy = Unit {0}
Consistent j (some (state_json s)) ac sy = Tracked j s ac sy
Consistent j (some (request_json p)) ac sy = ⊥
Consistent j (some (identity_json id case digest)) ac sy = ⊥
Consistent j (some (lease_text g d)) ac sy = ⊥

-- The same after commands.
abbrev pub After : ℕ → List JobCommand → Option JobValue → Option Number → Option Number → Type 0
After j cs st ac sy =
    Consistent j (gets_after cs (state j) st) (zscores_after cs active (job j) ac)
      (zscores_after cs sync_pending (job j) sy)

-- Commands that leave the snapshot, the lease and the index entries of a job alone.
pub record Spares (j : ℕ) (cs : List JobCommand) : Type 0 where
  pub snapshot : (old : Option JobValue) → gets_after cs (state j) old ≡ old
  pub leased : (old : Option JobValue) → gets_after cs (lease j) old ≡ old
  pub in_active : (old : Option Number) → zscores_after cs active (job j) old ≡ old
  pub in_sync : (old : Option Number) → zscores_after cs sync_pending (job j) old ≡ old
  pub in_recovery : (old : Option Number) → zscores_after cs recovery_pending (job j) old ≡ old

pub Spares-After :
    (j : ℕ) (cs : List JobCommand) (st : Option JobValue) (ac sy : Option Number)
    → Spares j cs
    → Consistent j st ac sy
    → After j cs st ac sy
Spares-After j cs st ac sy h k = rw (h.snapshot st, h.in_active ac, h.in_sync sy) k

pub Spares-nothing : (j : ℕ) → Spares j []
Spares-nothing j = record {
  snapshot = λ old. refl;
  leased = λ old. refl;
  in_active = λ old. refl;
  in_sync = λ old. refl;
  in_recovery = λ old. refl;
}

-- The same of what a plan sends.
pub record PlanSpares {A : Type 0} (j : ℕ) (p : JobPlan A) : Type 0 where
  pub sent : Spares j (commands_of p)

module _ {A : Type 0} (j : ℕ) where
  pub PlanSpares-stop : (r : Result A) → PlanSpares j (stop r)
  PlanSpares-stop r = record { sent = Spares-nothing j }

  pub PlanSpares-commit : (cs : List JobCommand) (a : A) → Spares j cs → PlanSpares j (commit cs a)
  PlanSpares-commit cs a h = record { sent = h }

  pub PlanSpares-if :
      (b : Bool) (p q : JobPlan A)
      → PlanSpares j p
      → PlanSpares j q
      → PlanSpares j (if b then p else q)
  PlanSpares-if true p q hp hq = hp
  PlanSpares-if false p q hp hq = hq

  pub PlanSpares-with_state :
      (found : Result (Option JobState)) (k : JobState → JobPlan A)
      → ((s : JobState) → PlanSpares j (k s))
      → PlanSpares j (with_state found k)
  unfolding with_state
  PlanSpares-with_state (err e) k hk = PlanSpares-stop (err e)
  PlanSpares-with_state (ok none) k hk = PlanSpares-stop _
  PlanSpares-with_state (ok (some s)) k hk = hk s

pub ruleset spares_rules = (PlanSpares-stop, PlanSpares-commit, PlanSpares-if)

-- A plan of the job itself, from its snapshot.
pub record Keeps {A : Type 0} (j : ℕ) (s : JobState) (ac sy : Option Number) (p : JobPlan A)
    : Type 0 where
  pub sent : After j (commands_of p) (some (state_json s)) ac sy

module _ {A : Type 0} (j : ℕ) (s : JobState) (ac sy : Option Number) where
  pub Keeps-stop : (r : Result A) → Tracked j s ac sy → Keeps j s ac sy (stop r)
  Keeps-stop r t = record { sent = t }

  pub Keeps-if :
      (b : Bool) (p q : JobPlan A)
      → (b ≡ true → Keeps j s ac sy p)
      → (b ≡ false → Keeps j s ac sy q)
      → Keeps j s ac sy (if b then p else q)
  Keeps-if true p q hp hq = hp refl
  Keeps-if false p q hp hq = hq refl

  pub Keeps-commit :
      (cs : List JobCommand) (a : A)
      → After j cs (some (state_json s)) ac sy
      → Keeps j s ac sy (commit cs a)
  Keeps-commit cs a h = record { sent = h }

pub ruleset keeps_rules = (Keeps-stop, Keeps-if)

-- A plan after the read of the snapshot that it changes.
pub with_state-After :
    {A : Type 0} (j : ℕ) (st : Option JobValue) (ac sy : Option Number) (k : JobState → JobPlan A)
    → ((s : JobState) → Tracked j s ac sy → Keeps j s ac sy (k s))
    → Consistent j st ac sy
    → After j (commands_of (with_state (decode_state st) k)) st ac sy
unfolding with_state decode_state
with_state-After j none ac sy k hk t = tt
with_state-After j (some (state_json s)) ac sy k hk t = rw t.valid ((hk s t).sent)
with_state-After j (some (request_json p)) ac sy k hk t = absurd t
with_state-After j (some (identity_json id case digest)) ac sy k hk t = absurd t
with_state-After j (some (lease_text g d)) ac sy k hk t = absurd t

-- A call is about one job: about this one, or it spares it.
pub own_or_spared :
    (id j : ℕ) (cs : ℕ → List JobCommand) (st : Option JobValue) (ac sy : Option Number)
    → After j (cs j) st ac sy
    → ((id == j) ≡ false → Spares j (cs id))
    → Consistent j st ac sy
    → After j (cs id) st ac sy
own_or_spared id j cs st ac sy own spared t = elim (Bool-cases (id == j)) [
  | inl e ↦ rw ((==_iff id j).0 e) own
  | inr e ↦ Spares-After j (cs id) st ac sy (spared e) t
]
