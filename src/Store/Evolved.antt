-- ===== src/Store/Evolved.antt =====
-- How a job's snapshot may change while its key stays: identity and times are kept, revisions and
-- generations never fall, a revision names one content, and a success is the last content.
pub mod Plans
pub mod Histories
pub mod Fencing
use search_trust_rd.Prelude.{
  ℕ, ◌≤◌, ◌≡◌, refl, ap, ◌∙◌, Bool, true, false, Option, some, List, [], if◌then◌else◌, arith, ◌==◌,
  inl, inr, Bool-cases, ==_iff,
}
use search_trust_rd.Model.{JobStatus, JobState, Result}
use search_trust_rd.Redis.{state, gets_after}
use search_trust_rd.Transaction.{stop, commit}
use search_trust_rd.Store.Base.{JobValue, state_json, JobCommand, JobPlan}
use search_trust_rd.Store.History.{commands_of}
use search_trust_rd.Store.Tracked.{Spares, PlanSpares}

-- The snapshot without the receipt of its callback.
abbrev pub content : JobState → JobState
content s = record s { callback_synced_revision = 0 }

pub record Evolves (s t : JobState) : Type 0 where
  pub same_job : t.job_id ≡ s.job_id
  pub same_case : t.case_id ≡ s.case_id
  pub same_request : t.request_digest ≡ s.request_digest
  pub same_key : t.idempotency_key_digest ≡ s.idempotency_key_digest
  pub same_created : t.created_at ≡ s.created_at
  pub same_deadline : t.deadline_at ≡ s.deadline_at
  pub revision_grows : s.revision ≤ t.revision
  pub generation_grows : s.run_generation ≤ t.run_generation
  pub one_content : t.revision ≡ s.revision → content t ≡ content s
  pub success_stays : s.status ≡ JobStatus.succeeded → content t ≡ content s

pub Evolves-refl : (s : JobState) → Evolves s s
Evolves-refl s = record {
  same_job = refl;
  same_case = refl;
  same_request = refl;
  same_key = refl;
  same_created = refl;
  same_deadline = refl;
  revision_grows = omega arith;
  generation_grows = omega arith;
  one_content = λ e. refl;
  success_stays = λ e. refl;
}

pub Evolves-trans : {s t u : JobState} → Evolves s t → Evolves t u → Evolves s u
Evolves-trans {s} {t} {u} a b = record {
  same_job = b.same_job ∙ a.same_job;
  same_case = b.same_case ∙ a.same_case;
  same_request = b.same_request ∙ a.same_request;
  same_key = b.same_key ∙ a.same_key;
  same_created = b.same_created ∙ a.same_created;
  same_deadline = b.same_deadline ∙ a.same_deadline;
  revision_grows = omega arith;
  generation_grows = omega arith;
  one_content = λ e. b.one_content (omega arith) ∙ a.one_content (omega arith);
  success_stays = λ e.
      b.success_stays (ap (λ (x : JobState). x.status) (a.success_stays e) ∙ e) ∙ a.success_stays e;
}

-- What the state key holds after commands, and that it has evolved.
pub record MovesTo (j : ℕ) (s : JobState) (cs : List JobCommand) : Type 0 where
  pub next : JobState
  pub holds : gets_after cs (state j) (some (state_json s)) ≡ some (state_json next)
  pub evolves : Evolves s next

pub record Moves {A : Type 0} (j : ℕ) (s : JobState) (p : JobPlan A) : Type 0 where
  pub sent : MovesTo j s (commands_of p)

pub MovesTo-spared : (j : ℕ) (s : JobState) (cs : List JobCommand) → Spares j cs → MovesTo j s cs
MovesTo-spared j s cs h = record { next = s; holds = h.snapshot _; evolves = Evolves-refl s }

module _ {A : Type 0} (j : ℕ) (s : JobState) where
  pub Moves-stop : (r : Result A) → Moves j s (stop r)
  Moves-stop r = record { sent = record { next = s; holds = refl; evolves = Evolves-refl s } }

  pub Moves-if :
      (b : Bool) (p q : JobPlan A)
      → (b ≡ true → Moves j s p)
      → (b ≡ false → Moves j s q)
      → Moves j s (if b then p else q)
  Moves-if true p q hp hq = hp refl
  Moves-if false p q hp hq = hq refl

pub ruleset moves_rules = (Moves-stop, Moves-if)
