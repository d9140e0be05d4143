-- ===== src/AcpSelection/Confirmed.antt =====
-- src/agent-runs/acp-session-selection.ts `applyAndConfirmAcpSelection`: what a confirmed selection
-- has seen of the session, and in which order.
use owner_operator.Prelude.{
  ◌≡◌, refl, sym, ap, ◌↔◌, String, true, Option, none, some, List, ◌==◌, arith,
}
use owner_operator.AgentRuns.{Effort, effort_text}
use owner_operator.AcpSelection.{
  AcpRuntime, AcpRuntimeStatus, Attempt, Call, Fields, Raised, RequestedAcpSelection, pure, ok,
  raised, ◌>>=◌, ◌>>◌,
}
use owner_operator.AcpSelection.Options.{config_options_from_status}
use owner_operator.AcpSelection.Selector.{found, resolve_thought_level_selector}
use owner_operator.AcpSelection.Confirm.{
  ConfirmedAcpSelection, confirm_effort, confirm, settled, advertises,
  apply_and_confirm_acp_selection, current_value, id_of, try_selection, await, options_of,
  selector_of, require_exact_model, require_config_options,
}
use owner_operator.AcpSelection.Calls.{
  now_of, method_of, await_of, await_unit_of, guard_of, options_shown, selector_found, model_exact,
  returned, now_from, method_from, await_from, await_unit_from, guard_from, exact_model,
}

-- A snapshot that is read in a state has the exact model and these options, and leaves a state.
pub record Seen {S H : Type 0} (get_status : H → Call S String AcpRuntimeStatus) (handle : H)
    (model : String) (before after : S) (options : List Fields) : Type 0 where
  pub status : AcpRuntimeStatus
  pub read : get_status handle before ≡ (after, ok status)
  pub exact : status.current_model_id ≡ some model
  pub shown : config_options_from_status status ≡ ok (some options)

module _ (requested : RequestedAcpSelection) where
  module _ {S H : Type 0} (runtime : AcpRuntime S H) (handle : H) where
    -- An effort is set by the id of the selector of the first snapshot, which advertises it, and the
    -- snapshot after that has the same selector, with the effort as its value.
    pub record Applied (get_status : H → Call S String AcpRuntimeStatus) (options : List Fields)
        (effort : Effort) (before after : S) (c : ConfirmedAcpSelection) : Type 0 where
      pub selector : Fields
      pub confirmed : Fields
      pub set_config_option : H → String → String → Call S String (Unit {0})
      pub middle : S
      pub chosen : resolve_thought_level_selector options ≡ found selector
      pub offered : advertises requested effort selector ≡ true
      pub settable : runtime.set_config_option ≡ some set_config_option
      pub was_set :
          set_config_option handle (id_of requested selector) (effort_text effort) before
          ≡ (middle, ok tt)
      pub seen : Seen get_status handle requested.model middle after c.config_options
      pub chosen_again : resolve_thought_level_selector c.config_options ≡ found confirmed
      pub same_id : (id_of requested confirmed == id_of requested selector) ≡ true
      pub offered_again : advertises requested effort confirmed ≡ true
      pub in_force : (current_value requested confirmed == effort_text effort) ≡ true

    abbrev pub Rest :
        (H → Call S String AcpRuntimeStatus)
        → List Fields
        → Option Effort
        → S
        → S
        → ConfirmedAcpSelection
        → Type 0
    Rest get_status options none before after c =
        (before ≡ after) × (c.effort ≡ none) × (c.config_options ≡ options)
    Rest get_status options (some effort) before after c =
        (c.effort ≡ some effort) × Applied get_status options effort before after c

    pub record Confirms (before after : S) (c : ConfirmedAcpSelection) : Type 0 where
      pub get_status : H → Call S String AcpRuntimeStatus
      pub between : S
      pub options : List Fields
      pub readable : runtime.get_status ≡ some get_status
      pub seen : Seen get_status handle requested.model before between options
      pub model : c.model ≡ requested.model
      pub rest : Rest get_status options requested.effort between after c

    snapshot_of :
        {B : Type 0} (get_status : H → Call S String AcpRuntimeStatus) (phase : String)
        (k : List Fields → Call S Raised B) (s s' : S) (b : B)
        → (await requested (get_status handle) >>= λ status.
              require_exact_model requested status phase
              >> (require_config_options requested status phase >>= k))
            s
          ≡ (s', ok b)
        → (options : List Fields) × (t : S) × Seen get_status handle requested.model s t options
          × (k options t ≡ (s', ok b))
    snapshot_of get_status phase k s s' b e =
        let (status, t, read, e1) = await_of requested s s' b (get_status handle) _ e in
        let (exact, e2) = guard_of requested t s' b _ _ _ _ e1 in
        let (options, shown, e3) = now_of requested t s' b _ k e2 in
        (
          options,
          t,
          record {
            status = status;
            read = read;
            exact = model_exact requested _ _ exact;
            shown = options_shown requested _ phase options shown;
          },
          e3,
        )

    snapshot_from :
        {B : Type 0} (get_status : H → Call S String AcpRuntimeStatus) (phase : String)
        (k : List Fields → Call S Raised B) (s t : S) (x : S × Attempt Raised B)
        (options : List Fields)
        → Seen get_status handle requested.model s t options
        → k options t ≡ x
        → (await requested (get_status handle) >>= λ status.
              require_exact_model requested status phase
              >> (require_config_options requested status phase >>= k))
            s
          ≡ x
    snapshot_from get_status phase k s t x options seen h =
        await_from requested s x (get_status handle) _ seen.status t seen.read (
          guard_from requested t x _ _ _ _ (exact_model requested _ _ seen.exact) (
            now_from requested t x _ k options (ap (λ r. options_of requested r phase) seen.shown)
              h))

    confirm_effort_of :
        (get_status : H → Call S String AcpRuntimeStatus) (options : List Fields) (effort : Effort)
        (s s' : S) (c : ConfirmedAcpSelection)
        → confirm_effort requested runtime handle get_status options effort s ≡ (s', ok c)
        → (c.model ≡ requested.model) × Rest get_status options (some effort) s s' c
    unfolding confirm_effort
    confirm_effort_of get_status options effort s s' c e =
        let (selector, chosen, e1) = now_of requested s s' c _ _ e in
        let (offered, e2) = guard_of requested s s' c _ _ _ _ e1 in
        let (setter, settable, e3) = method_of requested s s' c _ _ _ _ e2 in
        let (middle, was_set, e4) = await_unit_of requested s s' c _ _ e3 in
        let (shown, t, seen, e5) = snapshot_of get_status "confirmed" _ middle s' c e4 in
        let (confirmed, again, e6) = now_of requested t s' c _ _ e5 in
        let (same, e7) = guard_of requested t s' c _ _ _ _ e6 in
        let (offered_again, e8) = guard_of requested t s' c _ _ _ _ e7 in
        let (in_force, e9) = guard_of requested t s' c _ _ _ _ e8 in
        returned (λ t d. (d.model ≡ requested.model) × Rest get_status options (some effort) s t d)
          t s' _ c e9
          (
            refl,
            (
              refl,
              record {
                selector = selector;
                confirmed = confirmed;
                set_config_option = setter;
                middle = middle;
                chosen = selector_found requested _ "initial" selector chosen;
                offered = offered;
                settable = settable;
                was_set = was_set;
                seen = seen;
                chosen_again = selector_found requested _ "confirmed" confirmed again;
                same_id = same;
                offered_again = offered_again;
                in_force = in_force;
              },
            ),
          )

    confirm_of :
        (get_status : H → Call S String AcpRuntimeStatus) (options : List Fields)
        (o : Option Effort) (s s' : S) (c : ConfirmedAcpSelection)
        → confirm requested runtime handle get_status options o s ≡ (s', ok c)
        → (c.model ≡ requested.model) × Rest get_status options o s s' c
    confirm_of get_status options none s s' c e =
        returned (λ t d. (d.model ≡ requested.model) × Rest get_status options none s t d) s s' _ c
          e (refl, (refl, refl, refl))
    confirm_of get_status options (some effort) s s' c e =
        confirm_effort_of get_status options effort s s' c e

    try_selection_of :
        (s s' : S) (c : ConfirmedAcpSelection)
        → try_selection requested runtime handle s ≡ (s', ok c)
        → Confirms s s' c
    unfolding try_selection
    try_selection_of s s' c e =
        let (get_status, readable, e1) = method_of requested s s' c _ _ _ _ e in
        let (options, t, seen, e2) = snapshot_of get_status "initial" _ s s' c e1 in
        let (model, rest) = confirm_of get_status options requested.effort t s' c e2 in
        record {
          get_status = get_status;
          between = t;
          options = options;
          readable = readable;
          seen = seen;
          model = model;
          rest = rest;
        }

    settled_of :
        (x : S × Attempt Raised ConfirmedAcpSelection) (s' : S) (c : ConfirmedAcpSelection)
        → settled requested x ≡ (s', ok c)
        → x ≡ (s', ok c)
    settled_of (t, ok d) s' c e = ground (arith, e)
    settled_of (t, raised x) s' c e = ground (arith, e)

    the_selection :
        (effort : Effort) (s' : S) (c : ConfirmedAcpSelection)
        → c.model ≡ requested.model
        → c.effort ≡ some effort
        → pure {E = Raised}
            (record {
              model = requested.model;
              effort = some effort;
              config_options = c.config_options;
            })
            s'
          ≡ (s', ok c)
    the_selection effort s' c model_is effort_is = rw (sym model_is, sym effort_is) refl

    confirm_effort_from :
        (get_status : H → Call S String AcpRuntimeStatus) (options : List Fields) (effort : Effort)
        (s s' : S) (c : ConfirmedAcpSelection)
        → c.model ≡ requested.model
        → c.effort ≡ some effort
        → Applied get_status options effort s s' c
        → confirm_effort requested runtime handle get_status options effort s ≡ (s', ok c)
    unfolding confirm_effort
    confirm_effort_from get_status options effort s s' c model_is effort_is h =
        let x : S × Attempt Raised ConfirmedAcpSelection = (s', ok c) in
        let same = the_selection effort s' c model_is effort_is in
        now_from requested s x _ _ h.selector (ap (λ r. selector_of requested r "initial") h.chosen)
          (guard_from requested s x _ _ _ _ h.offered (
            method_from requested s x _ _ _ _ h.set_config_option h.settable (
              await_unit_from requested s x _ _ h.middle h.was_set (
                snapshot_from get_status "confirmed" _ h.middle s' x c.config_options h.seen (
                  now_from requested s' x _ _ h.confirmed
                    (ap (λ r. selector_of requested r "confirmed") h.chosen_again)
                    (guard_from requested s' x _ _ _ _ h.same_id (
                      guard_from requested s' x _ _ _ _ h.offered_again
                        (guard_from requested s' x _ _ _ _ h.in_force same))))))))

    confirm_from :
        (get_status : H → Call S String AcpRuntimeStatus) (options : List Fields)
        (o : Option Effort) (s s' : S) (c : ConfirmedAcpSelection)
        → c.model ≡ requested.model
        → Rest get_status options o s s' c
        → confirm requested runtime handle get_status options o s ≡ (s', ok c)
    confirm_from get_status options none s s' c model_is (state, none_is, options_are) =
        rw (sym model_is, sym none_is, sym options_are, state) refl
    confirm_from get_status options (some effort) s s' c model_is (effort_is, h) =
        confirm_effort_from get_status options effort s s' c model_is effort_is h

    try_selection_from :
        (s s' : S) (c : ConfirmedAcpSelection)
        → Confirms s s' c
        → try_selection requested runtime handle s ≡ (s', ok c)
    unfolding try_selection
    try_selection_from s s' c h =
        let x : S × Attempt Raised ConfirmedAcpSelection = (s', ok c) in
        method_from requested s x _ _ _ _ h.get_status h.readable (
          snapshot_from h.get_status "initial" _ s h.between x h.options h.seen
            (confirm_from h.get_status h.options requested.effort h.between s' c h.model h.rest))

    -- A selection is confirmed exactly where a first snapshot has the exact model and valid options,
    -- and, with an effort, its selector advertises the effort, acpx has set it under the id of the
    -- selector, and a second snapshot, which gives the options that are returned, has the exact
    -- model, a selector of the same id that advertises the effort, and the effort as its value.
    pub apply_and_confirm_acp_selection-Confirms :
        (s s' : S) (c : ConfirmedAcpSelection)
        → (apply_and_confirm_acp_selection requested runtime handle s ≡ (s', ok c))
          ↔ Confirms s s' c
    unfolding apply_and_confirm_acp_selection
    apply_and_confirm_acp_selection-Confirms s s' c = (
      λ e. try_selection_of s s' c (settled_of (try_selection requested runtime handle s) s' c e),
      λ h. ap (settled requested) (try_selection_from s s' c h),
    )
