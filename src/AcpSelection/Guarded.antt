-- ===== src/AcpSelection/Guarded.antt =====
-- src/agent-runs/acp-session-selection.ts `applyAndConfirmAcpSelection`: what it may have done to
-- the session, however it ends.
use owner_operator.Prelude.{
  ◌≡◌, refl, ap, ◌⊎◌, inl, inr, String, Bool, true, false, Option, none, some, List,
}
use owner_operator.AgentRuns.{Effort}
use owner_operator.AcpSelection.{
  AcpRuntime, AcpRuntimeStatus, Attempt, Call, Fields, Raised, RequestedAcpSelection, ok, raised,
  ◌>>=◌, ◌>>◌,
}
use owner_operator.AcpSelection.Selector.{found, resolve_thought_level_selector}
use owner_operator.AcpSelection.Confirm.{
  ConfirmedAcpSelection, adapted, advertises, apply_and_confirm_acp_selection, await,
  confirm_effort, confirm, guard, method, now_has, settled, try_selection,
}
use owner_operator.AcpSelection.Confirmed.{Seen}
use owner_operator.AcpSelection.Calls.{model_exact, options_shown, selector_found}

module _ (requested : RequestedAcpSelection) where
  -- Where a chain of calls ends, step by step.
  module _ {S A B : Type 0} (Q : S → Type 0) (s : S) where
    now_ends :
        (r : Attempt Raised A) (f : A → Call S Raised B)
        → Q s
        → ((a : A) → r ≡ ok a → Q (f a s).0)
        → Q ((now_has requested r >>= f) s).0
    unfolding ◌>>=◌ now_has
    now_ends (ok a) f stays goes = goes a refl
    now_ends (raised e) f stays goes = stays

    method_ends :
        (o : Option A) (code detail : String) (f : A → Call S Raised B)
        → Q s
        → ((a : A) → o ≡ some a → Q (f a s).0)
        → Q ((method requested o code detail >>= f) s).0
    unfolding ◌>>=◌ method
    method_ends (some a) code detail f stays goes = goes a refl
    method_ends none code detail f stays goes = stays

    adapted_ends :
        (x : S × Attempt String A) (f : A → Call S Raised B)
        → Q x.0
        → ((a : A) (t : S) → x ≡ (t, ok a) → Q (f a t).0)
        → Q (((λ u. adapted requested x) >>= f) s).0
    unfolding ◌>>=◌ adapted
    adapted_ends (t, ok a) f stays goes = goes a t refl
    adapted_ends (t, raised e) f stays goes = stays

    await_ends :
        (call : Call S String A) (f : A → Call S Raised B)
        → Q (call s).0
        → ((a : A) (t : S) → call s ≡ (t, ok a) → Q (f a t).0)
        → Q ((await requested call >>= f) s).0
    unfolding ◌>>=◌ await
    await_ends call f stays goes = adapted_ends (call s) f stays goes

  guard_ends :
      {S B : Type 0} (Q : S → Type 0) (s : S) (b : Bool) (code detail : String)
      (k : Call S Raised B)
      → Q s
      → (b ≡ true → Q (k s).0)
      → Q ((guard requested b code detail >> k) s).0
  unfolding ◌>>◌ guard
  guard_ends Q s true code detail k stays goes = goes refl
  guard_ends Q s false code detail k stays goes = stays

  module _ {S H : Type 0} (runtime : AcpRuntime S H) (handle : H) (start : S) where
    -- The first snapshot has the exact model, valid options, and a selector that advertises the
    -- requested effort.
    pub record Ready : Type 0 where
      pub get_status : H → Call S String AcpRuntimeStatus
      pub between : S
      pub options : List Fields
      pub selector : Fields
      pub effort : Effort
      pub readable : runtime.get_status ≡ some get_status
      pub asked : requested.effort ≡ some effort
      pub seen : Seen get_status handle requested.model start between options
      pub chosen : resolve_thought_level_selector options ≡ found selector
      pub offered : advertises requested effort selector ≡ true

    -- A session that is only read: not at all, or once.
    abbrev pub OnlyRead : S → Type 0
    OnlyRead end =
        (end ≡ start)
        ⊎ ((get_status : H → Call S String AcpRuntimeStatus) × (runtime.get_status
              ≡ some get_status)
            × ((get_status handle start).0 ≡ end))

    abbrev Guarded : S → Type 0
    Guarded end = OnlyRead end ⊎ Ready

    effort_ends :
        (get_status : H → Call S String AcpRuntimeStatus) (between : S) (options : List Fields)
        (effort : Effort)
        → runtime.get_status ≡ some get_status
        → requested.effort ≡ some effort
        → Seen get_status handle requested.model start between options
        → (get_status handle start).0 ≡ between
        → Guarded (confirm_effort requested runtime handle get_status options effort between).0
    unfolding confirm_effort
    effort_ends get_status between options effort readable asked seen read =
        now_ends Guarded between _ _ (inl (inr (get_status, readable, read))) λ selector chosen.
          guard_ends Guarded between _ _ _ _ (inl (inr (get_status, readable, read))) λ offered.
            inr (record {
              get_status = get_status;
              between = between;
              options = options;
              selector = selector;
              effort = effort;
              readable = readable;
              asked = asked;
              seen = seen;
              chosen = selector_found requested _ "initial" selector chosen;
              offered = offered;
            })

    confirm_ends :
        (get_status : H → Call S String AcpRuntimeStatus) (between : S) (options : List Fields)
        (o : Option Effort)
        → runtime.get_status ≡ some get_status
        → requested.effort ≡ o
        → Seen get_status handle requested.model start between options
        → (get_status handle start).0 ≡ between
        → Guarded (confirm requested runtime handle get_status options o between).0
    confirm_ends get_status between options none readable asked seen read =
        inl (inr (get_status, readable, read))
    confirm_ends get_status between options (some effort) readable asked seen read =
        effort_ends get_status between options effort readable asked seen read

    try_ends : Guarded (try_selection requested runtime handle start).0
    unfolding try_selection
    try_ends = method_ends Guarded start _ _ _ _ (inl (inl refl)) λ get_status readable.
        await_ends Guarded start _ _ (inl (inr (get_status, readable, refl))) λ status between read.
          let here : Guarded between = inl (inr (get_status, readable, ap (λ x. x.0) read)) in
          guard_ends Guarded between _ _ _ _ here λ exact.
            now_ends Guarded between _ _ here λ options shown.
              confirm_ends get_status between options requested.effort readable refl
                (record {
                  status = status;
                  read = read;
                  exact = model_exact requested _ _ exact;
                  shown = options_shown requested _ "initial" options shown;
                })
                (ap (λ x. x.0) read)

    settled_state :
        (x : S × Attempt Raised ConfirmedAcpSelection)
        → Guarded x.0
        → Guarded (settled requested x).0
    settled_state (t, ok c) h = h
    settled_state (t, raised e) h = h

    -- However it ends, the session has only been read, at most once, unless that first snapshot had
    -- the exact model, valid options, and a selector that advertises the effort, which was requested.
    pub apply_and_confirm_acp_selection-Ready :
        OnlyRead (apply_and_confirm_acp_selection requested runtime handle start).0 ⊎ Ready
    unfolding apply_and_confirm_acp_selection
    apply_and_confirm_acp_selection-Ready =
        settled_state (try_selection requested runtime handle start) try_ends
