-- ===== src/Ledger/Reported.antt =====
-- src/state/database.ts `recordAgentRunActivity` and `toAgentRun`: the identity of a harness that is
-- reported, written to the columns of the row, and read back.
use Prim.Native.Char.{code}
use owner_operator.Prelude.{
  ℕ, String, ◌≡◌, refl, ap, ◌∙◌, ◌⊎◌, inl, inr, Bool, true, false, Option, none, some, List, [],
  ◌∷◌, update_where, ◌==◌, arith, is_blank, is_space, find-update_where, find-passes, any, eq_iff,
  if◌then◌else◌, Bool-cases,
}
use owner_operator.AgentRuns.{
  AgentRun, AgentRunActivityUpdate, Effort, HarnessIdentityObservation, is_running, observed_both,
  observed_effort, observed_model, unobserved,
}
use owner_operator.AgentRuns.Identity.{effort-round_trip, read_identity, written_identity}
use owner_operator.Ledger.{
  Ledger, agent_run_by_id, has_id, record_agent_run_activity, running_row, with_activity,
}

-- What an observation says.
abbrev pub model_in : HarnessIdentityObservation → Option String
model_in unobserved = none
model_in (observed_both m e) = some m
model_in (observed_model m) = some m
model_in (observed_effort e) = none

abbrev pub effort_in : HarnessIdentityObservation → Option Effort
effort_in unobserved = none
effort_in (observed_both m e) = some e
effort_in (observed_model m) = none
effort_in (observed_effort e) = some e

-- Some character of a text is no white space; every one is.
abbrev pub HasVisible : String → Type 0
HasVisible String.[] = ⊥
HasVisible (String.◌∷◌ c s) = (is_space (code c) ≡ false) ⊎ HasVisible s

abbrev pub AllSpace : String → Type 0
AllSpace String.[] = Unit
AllSpace (String.◌∷◌ c s) = (is_space (code c) ≡ true) × AllSpace s

-- A model that is reported is kept where it has a visible character, and dropped where it has none.
abbrev pub KeepsModel : Option String → Option String → Type 0
KeepsModel none after = after ≡ none
KeepsModel (some m) after = (HasVisible m × (after ≡ some m)) ⊎ (AllSpace m × (after ≡ none))

abbrev pub IsReported :
    Option HarnessIdentityObservation → (before after : HarnessIdentityObservation) → Type 0
IsReported none before after = after ≡ before
IsReported (some o) before after =
    KeepsModel (model_in o) (model_in after) × (effort_in after ≡ effort_in o)

blank_or_visible :
    (m : String) → (AllSpace m × (is_blank m ≡ true)) ⊎ (HasVisible m × (is_blank m ≡ false))
unfolding is_blank
blank_or_visible String.[] = inl (tt, refl)
blank_or_visible (String.◌∷◌ c s) = elim (Bool-cases (is_space (code c))) [
  | inr seen ↦ inr (inl seen, ground (arith, seen))
  | inl space ↦ elim (blank_or_visible s) [
    | inl (all, blank) ↦ inl ((space, all), ground (arith, space, blank))
    | inr (some_seen, blank) ↦ inr (inr some_seen, ground (arith, space, blank))
  ]
]

reread_model :
    (m : String)
    → read_identity (written_identity (observed_model m))
      ≡ (if is_blank m then unobserved else observed_model m)
unfolding read_identity written_identity
reread_model m = ground arith

reread_effort :
    (e : Effort) → read_identity (written_identity (observed_effort e)) ≡ observed_effort e
unfolding read_identity written_identity
reread_effort e = ground (arith, effort-round_trip e)

reread_both :
    (m : String) (e : Effort)
    → read_identity (written_identity (observed_both m e))
      ≡ (if is_blank m then observed_effort e else observed_both m e)
unfolding read_identity written_identity
reread_both m e = ground (arith, effort-round_trip e)

reread-IsReported :
    (o before : HarnessIdentityObservation)
    → IsReported (some o) before (read_identity (written_identity o))
reread-IsReported unobserved before = unfold read_identity written_identity in (refl, refl)
reread-IsReported (observed_effort e) before = rw (reread_effort e) (refl, refl)
reread-IsReported (observed_model m) before = elim (blank_or_visible m) [
  | inl (all, blank) ↦ rw (reread_model m, blank) (inr (all, refl), refl)
  | inr (seen, visible) ↦ rw (reread_model m, visible) (inl (seen, refl), refl)
]
reread-IsReported (observed_both m e) before = elim (blank_or_visible m) [
  | inl (all, blank) ↦ rw (reread_both m e, blank) (inr (all, refl), refl)
  | inr (seen, visible) ↦ rw (reread_both m e, visible) (inl (seen, refl), refl)
]

update-IsReported :
    (now : ℕ) (u : AgentRunActivityUpdate) (r : AgentRun)
    (reported : Option HarnessIdentityObservation)
    → u.harness_identity ≡ reported
    → IsReported reported r.harness_identity (with_activity now u r).harness_identity
update-IsReported now u r none e = rw e refl
update-IsReported now u r (some o) e = rw e (reread-IsReported o r.harness_identity)

found_updated :
    (id : String) (f : AgentRun → AgentRun) (runs : List AgentRun) (r : AgentRun)
    → ((q : AgentRun) → (f q).id ≡ q.id)
    → agent_run_by_id id runs ≡ some r
    → is_running r.status ≡ true
    → agent_run_by_id id (update_where (running_row id) f runs) ≡ some (f r)
found_updated id f runs r same found on =
    let own : running_row id r ≡ true = ground (arith, on, find-passes (has_id id) runs r found) in
    find-update_where (has_id id) (running_row id) f runs r (λ q. ap (λ i. i == id) (same q)) found
    ∙ ap (λ (b : Bool). some (if b then f r else r)) own

found_active :
    (id : String) (runs : List AgentRun) (r : AgentRun)
    → agent_run_by_id id runs ≡ some r
    → is_running r.status ≡ true
    → any (running_row id) runs ≡ true
found_active id [] r found on = ground (arith, found)
found_active id (q ∷ runs) r found on = ground (arith, eq_iff q.id id, found_active id runs r)

-- Activity of a running run leaves a row of that run, read back with the identity that was reported:
-- the effort as it was, the model if it has a character that is no white space and else none. Where
-- none was reported, the row keeps its identity.
pub record_agent_run_activity-IsReported :
    (now : ℕ) (id : String) (u : AgentRunActivityUpdate) (l : Ledger) (r : AgentRun)
    → agent_run_by_id id l.runs ≡ some r
    → is_running r.status ≡ true
    → (r' : AgentRun) × (agent_run_by_id id (record_agent_run_activity now id u l).0.runs ≡ some r')
      × IsReported u.harness_identity r.harness_identity r'.harness_identity
unfolding record_agent_run_activity
record_agent_run_activity-IsReported now id u l r found on = (
  with_activity now u r,
  rw (found_active id l.runs r found on)
      (found_updated id (with_activity now u) l.runs r (λ q. refl) found on),
  update-IsReported now u r u.harness_identity refl,
)
