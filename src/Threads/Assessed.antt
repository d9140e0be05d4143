-- ===== src/Threads/Assessed.antt =====
-- src/state/database.ts: an assessment that is taken settles the thread until its evidence moves.
use owner_operator.Prelude.{
  ℕ, ◌+◌, ◌≡◌, refl, sym, subst, ◌∙◌, String, Bool, true, false, not, ◌&&◌, ◌||◌, Option, none,
  some, List, [], ◌∷◌, arith, if◌then◌else◌, eq_refl, Bool-cases, inl, inr, ltb, leb, nat_eq,
  get_or, is_some, find-passes, find-update_where, update_where, same_text, sort_by, keep,
}
use owner_operator.AgentRuns.{AgentRun}
use owner_operator.RunLog.Json.{status_text}
use owner_operator.Threads.{
  ChildEvidence, DetailsRow, Thread, ThreadResolutionRow, ThreadState, Threads, active_first,
  append_details, child_evidence, done, effective_state, evidence_of, gathered, has_active_child,
  idle, is_thread, latest_details, model, needs_you, of_latest, resolution_of, resolution_row,
  same_children, same_instant, same_state, thread_by_id, working,
}
use owner_operator.Threads.Enrichment.{
  Attention, ThreadEnrichment, append_model_details_if_fresh, asks, assess, assessed,
  enrichment_patch, state_of_attention, is_busy, is_enrichment_candidate, is_rejected, rests,
  take_assessment, wants_enrichment, working_reassess_ms,
}
use owner_operator.Threads.Latest.{append_found}

same_text_refl : (o : Option String) → same_text o o ≡ true
same_text_refl none = refl
same_text_refl (some s) = eq_refl s

same_instant_refl : (o : Option ℕ) → same_instant o o ≡ true
same_instant_refl none = refl
same_instant_refl (some n) = ground arith

same_children_refl : (cs : List ChildEvidence) → same_children cs cs ≡ true
unfolding same_children
same_children_refl [] = refl
same_children_refl (c ∷ cs) =
    rw
      (
        eq_refl c.id,
        same_text_refl c.source,
        same_instant_refl c.last_message_at,
        eq_refl c.run_id,
        eq_refl (status_text c.status),
      )
      (same_children_refl cs)

evidence_of-assessed :
    (p : Thread → Bool) (now through : ℕ) (busy : Bool) (cs : List ChildEvidence)
    (threads : List Thread) (r : AgentRun)
    → evidence_of (update_where p (assessed now through busy cs) threads) r ≡ evidence_of threads r
evidence_of-assessed p now through busy cs [] r = refl
evidence_of-assessed p now through busy cs (t ∷ ts) r =
    ground (arith, evidence_of-assessed p now through busy cs ts r)

gathered-ext {ℓ κ} :
    {A : Type ℓ} {B : Type κ} (f g : A → List B) (xs : List A)
    → ((x : A) → f x ≡ g x)
    → gathered f xs ≡ gathered g xs
gathered-ext f g [] same = refl
gathered-ext f g (x ∷ xs) same = rw (same x, gathered-ext f g xs same)

-- The evidence of the children does not read what an assessment writes.
child_evidence-assessed :
    (p : Thread → Bool) (now through : ℕ) (busy : Bool) (cs : List ChildEvidence) (id : String)
    (runs : List AgentRun) (threads : List Thread)
    → child_evidence id runs (update_where p (assessed now through busy cs) threads)
      ≡ child_evidence id runs threads
unfolding child_evidence
child_evidence-assessed p now through busy cs id runs threads =
    gathered-ext (evidence_of (update_where p (assessed now through busy cs) threads))
      (evidence_of threads)
      (sort_by active_first (keep (λ r. same_text r.parent_thread_id (some id)) runs))
      (evidence_of-assessed p now through busy cs threads)

-- A session that counts as working goes on to do so, and another one does not begin to.
still_busy :
    (id : String) (runs : List AgentRun) (s : ThreadState) (a : Option Attention) (busy : Bool)
    → busy ≡ (same_state s working || has_active_child id runs)
    → same_state s done ≡ false
    → (not busy && not (is_some a)) ≡ false
    → same_state (effective_state id runs (get_or (state_of_attention busy a) s)) working ≡ busy
unfolding effective_state
still_busy id runs done a busy is opened answered = cc
still_busy id runs working none busy is opened answered = ground (arith, is)
still_busy id runs idle none busy is opened answered = ground (arith, is, answered)
still_busy id runs needs_you none busy is opened answered = ground (arith, is, answered)
still_busy id runs working (some a) busy is opened answered = ground (arith, is)
still_busy id runs idle (some rests) busy is opened answered = ground (arith, is)
still_busy id runs idle (some asks) busy is opened answered = ground (arith, is)
still_busy id runs needs_you (some rests) busy is opened answered = ground (arith, is)
still_busy id runs needs_you (some asks) busy is opened answered = ground (arith, is)

still_open :
    (s : ThreadState) (a : Option Attention) (busy : Bool)
    → same_state s done ≡ false
    → same_state (get_or (state_of_attention busy a) s) done ≡ false
still_open s none busy opened = opened
still_open s (some a) true opened = opened
still_open s (some rests) false opened = refl
still_open s (some asks) false opened = refl

-- The thread afterwards, as the list of candidates reads it.
abbrev settled_row :
    (through : ℕ)
    → (busy : Bool) → (id : String) → ThreadState
    → (last : Option ℕ) → List ChildEvidence
    → ThreadResolutionRow
settled_row through busy id state last children = record {
  id = id;
  state = state;
  last_message_at = last;
  enriched_through_message_at = some through;
  enriched_while_working = busy;
  enriched_children = children;
  enrichment_contract = 2;
  children_evidence = children;
}

ended :
    (busy due : Bool) (through m : ℕ)
    → m ≡ through
    → (ltb through m
        || false
        || false
        || nat_eq through m && (if busy then not busy else busy)
        || busy && due)
      ≡ (busy && due)
ended busy due through m same = ground arith

settled :
    (later now through : ℕ) (id : String) (runs : List AgentRun) (busy : Bool) (own : String)
    (state : ThreadState) (last : Option ℕ) (children : List ChildEvidence)
    → same_instant last (some through) ≡ true
    → same_state state done ≡ false
    → same_state (effective_state id runs state) working ≡ busy
    → wants_enrichment later id runs (some now) (settled_row through busy own state last children)
      ≡ (busy && leb (now + working_reassess_ms) later)
unfolding effective_state
settled later now through id runs busy own state none children seen opened is = cc
settled later now through id runs busy own state (some m) children seen opened is =
    let same : m ≡ through = ground (arith, seen) in
    rw (is, same_children_refl children, opened)
      (ended busy (leb (now + working_reassess_ms) later) through m same)

abbrev row_of : Thread → DetailsRow → List ChildEvidence → ThreadResolutionRow
row_of t d children = record {
  id = t.id;
  state = d.state;
  last_message_at = t.last_message_at;
  enriched_through_message_at = t.enriched_through_message_at;
  enriched_while_working = t.enriched_while_working;
  enriched_children = t.enriched_children;
  enrichment_contract = t.enrichment_contract;
  children_evidence = children;
}

module _ (now later through : ℕ) (id : String) (runs : List AgentRun) (details : ThreadEnrichment)
    (summary : String) (db : Threads) (t : Thread) (d : DetailsRow)
    (account : details.status_summary ≡ some summary) (found : thread_by_id id db.threads ≡ some t)
    (latest : latest_details id db.details ≡ some d) where
  written :
      (busy : Bool) (children : List ChildEvidence)
      → (if is_some details.status_summary
          then update_where (is_thread id) (assessed now through busy children) db.threads
          else db.threads)
        ≡ update_where (is_thread id) (assessed now through busy children) db.threads
  written busy children = rw account

  taken-candidate :
      (busy : Bool)
      → busy ≡ (same_state d.state working || has_active_child id runs)
      → same_state d.state done ≡ false
      → (not busy && not (is_some details.attention)) ≡ false
      → same_instant t.last_message_at (some through) ≡ true
      → is_enrichment_candidate later id runs
          (take_assessment now id busy details through
            (row_of t d (child_evidence id runs db.threads))
            db).0
        ≡ (busy && leb (now + working_reassess_ms) later)
  unfolding is_enrichment_candidate resolution_row append_details
  taken-candidate busy is opened answered seen =
      let children = child_evidence id runs db.threads in
      let title = of_latest (λ d. d.topic) none (latest_details id db.details) in
      let patch = enrichment_patch busy details title in
      let (e, there, state) = append_found now id patch model db.details d latest in
      let after : thread_by_id id
            (update_where (is_thread id) (assessed now through busy children) db.threads)
          ≡ some (assessed now through busy children t) =
        find-update_where (is_thread id) (is_thread id) (assessed now through busy children)
          db.threads t (λ y. refl) found
        ∙ ground (arith, find-passes (is_thread id) db.threads t found) in
      rw
        (
          there,
          written busy children,
          after,
          child_evidence-assessed (is_thread id) now through busy children id runs db.threads,
        )
        (settled later now through id runs busy t.id e.state t.last_message_at children seen
          (subst (λ s. same_state s done ≡ false) (sym state)
            (still_open d.state details.attention busy opened))
          (subst (λ s. same_state (effective_state id runs s) working ≡ busy) (sym state)
            (still_busy id runs d.state details.attention busy is opened answered)))

-- Whether the session counts as working: its state says so, or a child of it is active.
abbrev pub counts_as_working : (id : String) → List AgentRun → Option DetailsRow → Bool
counts_as_working id runs none = false
counts_as_working id runs (some d) = same_state d.state working || has_active_child id runs

assess-candidate :
    (now later through : ℕ) (id : String) (runs : List AgentRun) (details : ThreadEnrichment)
    (children : List ChildEvidence) (db : Threads) (summary : String) (v : ℕ) (ot : Option Thread)
    (od : Option DetailsRow)
    → thread_by_id id db.threads ≡ ot
    → latest_details id db.details ≡ od
    → details.status_summary ≡ some summary
    → (assess now id runs details through children
        (resolution_of (child_evidence id runs db.threads) ot od)
        db).1
      ≡ some v
    → is_enrichment_candidate later id runs
        (assess now id runs details through children
          (resolution_of (child_evidence id runs db.threads) ot od)
          db).0
      ≡ (counts_as_working id runs od && leb (now + working_reassess_ms) later)
unfolding append_details
assess-candidate now later through id runs details children db summary v none od f l account done' =
    cc
assess-candidate now later through id runs details children db summary v (some t) none f l account
      done' =
    cc
assess-candidate now later through id runs details children db summary v (some t) (some d) f l
      account done' =
    let current = row_of t d (child_evidence id runs db.threads) in
    let busy = is_busy id runs current in
    elim (Bool-cases (is_rejected current busy details through children)) [
      | inl out ↦ absurd (ground (arith, out, done'))
      | inr taken ↦ rw taken (
          taken-candidate now later through id runs details summary db t d account f l busy refl
            (ground (arith, taken)) (ground (arith, taken)) (ground (arith, taken)))
    ]

-- Once an assessment with an account of the thread has been taken, the thread is a candidate for
-- another one only if it counts as working and four minutes have gone by, as long as its messages and
-- its children stay as they are.
pub append_model_details_if_fresh-candidate :
    (now later through : ℕ) (id : String) (runs : List AgentRun) (details : ThreadEnrichment)
    (children : List ChildEvidence) (db : Threads) (summary : String) (v : ℕ)
    → details.status_summary ≡ some summary
    → (append_model_details_if_fresh now id runs details through children db).1 ≡ some v
    → is_enrichment_candidate later id runs
        (append_model_details_if_fresh now id runs details through children db).0
      ≡ (counts_as_working id runs (latest_details id db.details)
          && leb (now + working_reassess_ms) later)
unfolding append_model_details_if_fresh resolution_row
append_model_details_if_fresh-candidate now later through id runs details children db summary v
      account taken =
    assess-candidate now later through id runs details children db summary v
      (thread_by_id id db.threads) (latest_details id db.details) refl refl account taken
