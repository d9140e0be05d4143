-- ===== src/Tests/SessionCases.antt =====
-- packages/core/src/session-state.ts at concrete rows.
use owner_operator.Prelude.{
  inl, true, false, ℕ, ◌≡◌, refl, ◌↔◌, String, Option, none, some, List, [], ◌∷◌, map, keep,
}
use owner_operator.SessionState.{
  Arranged, OpenState, SessionFacts, SessionSection, arrange_session_state, id_before,
}
use owner_operator.Threads.Owner.{next_message}
use owner_operator.SessionState.Members.{In}
use owner_operator.SessionState.Chains.{Chain, DistinctIds}
use owner_operator.SessionState.Shown.{arrange_session_state-Chain}
use owner_operator.SessionState.Order.{Ordered, arrange_session_state-Ordered}
use owner_operator.SessionState.Tops.{is_top}

abbrev row_of : String → OpenState → Option String → ℕ → SessionFacts
row_of id state parent at = record {
  id = id;
  state = state;
  snooze = none;
  parent_thread_id = parent;
  created_at = some at;
  last_message_at = some at;
}

abbrev asleep : SessionFacts
asleep = record (row_of "s" OpenState.needs_you none 9) { snooze = some next_message }

-- "b" and "d" are delegated by "a", "c" waits for the owner, "e" has a parent that is not shown.
abbrev board : List SessionFacts
board =
    asleep
    ∷ row_of "b" OpenState.needs_you (some "a") 2
    ∷ row_of "a" OpenState.working none 1
    ∷ row_of "c" OpenState.needs_you none 3
    ∷ row_of "d" OpenState.idle (some "a") 5
    ∷ row_of "e" OpenState.idle (some "gone") 4
    ∷ []

abbrev shown : Arranged → String × (SessionSection × ℕ)
shown a = (a.row.id, (a.section, a.depth))

board_shown :
    map shown (arrange_session_state board)
    ≡ ("c", (SessionSection.needs_you, 0))
      ∷ ("a", (SessionSection.working, 0))
      ∷ ("d", (SessionSection.working, 1))
      ∷ ("b", (SessionSection.working, 1))
      ∷ ("e", (SessionSection.idle, 0))
      ∷ ("s", (SessionSection.snoozed, 0))
      ∷ []
unfolding arrange_session_state
board_shown = refl

-- Two rows that are each other's parent are not shown.
circle_hidden :
    arrange_session_state
      (row_of "x" OpenState.idle (some "y") 1 ∷ row_of "y" OpenState.idle (some "x") 2 ∷ [])
    ≡ []
unfolding arrange_session_state
circle_hidden = refl

-- "\u{1f600}" starts with the unit d83d, which comes before that of "\u{ff5e}".
units_order : map (λ s. id_before s "～") ("😀" ∷ "z" ∷ "～" ∷ []) ≡ true ∷ true ∷ false ∷ []
unfolding id_before
units_order = refl

board-DistinctIds : DistinctIds board
board-DistinctIds = (refl, (refl, (refl, (refl, (refl, (refl, tt))))))

arrange_session_state-Chain_example :
    In
      (record {
        row = row_of "d" OpenState.idle (some "a") 5;
        section = SessionSection.working;
        depth = 1;
      })
      (arrange_session_state board)
    ↔ Chain board (row_of "d" OpenState.idle (some "a") 5) SessionSection.working 1
arrange_session_state-Chain_example = arrange_session_state-Chain board board-DistinctIds (record {
  row = row_of "d" OpenState.idle (some "a") 5;
  section = SessionSection.working;
  depth = 1;
})

arrange_session_state-Ordered_example :
    In
      (record { row = asleep; section = SessionSection.snoozed; depth = 0 })
      (keep is_top (arrange_session_state board))
    × Ordered (keep is_top (arrange_session_state board))
arrange_session_state-Ordered_example = arrange_session_state-Ordered board asleep (inl refl) refl
