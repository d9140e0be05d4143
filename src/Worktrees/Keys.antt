-- ===== src/Worktrees/Keys.antt =====
-- src/state/database.ts, tables worktrees and thread_worktrees: their keys, and the rows that keep them.
use owner_operator.Prelude.{
  ℕ, String, ◌≡◌, refl, Bool, All, true, false, List, [], ◌∷◌, ◌++◌, ◌==◌, arith, any, update_where,
  if_elim, eq_iff,
}
use owner_operator.Worktrees.{
  RegisteredWorktree, Registry, Selected, of_thread, upsert_worktree_selection,
}

-- No id stands twice.
abbrev pub Unique : List RegisteredWorktree → Type 0
Unique [] = Unit {0}
Unique (w ∷ ws) = (any (λ o. o.id == w.id) ws ≡ false) × Unique ws

-- The worktree of each selection stands.
abbrev pub Referenced : List RegisteredWorktree → List Selected → Type 0
Referenced ws rows = All (λ s. any (λ w. w.id == s.worktree_id) ws ≡ true) rows

-- The primary key of `worktrees`, and the foreign key of `thread_worktrees`.
pub record WfRegistry (db : Registry) : Type 0 where
  pub unique : Unique db.worktrees
  pub referenced : Referenced db.worktrees db.selections

any-more :
    (q : RegisteredWorktree → Bool) (ws vs : List RegisteredWorktree)
    → any q ws ≡ true
    → any q (ws ++ vs) ≡ true
any-more q [] vs h = ground (arith, h)
any-more q (w ∷ ws) vs h = ground (arith, h, any-more q ws vs)

no_later :
    (o w : RegisteredWorktree) (ws : List RegisteredWorktree)
    → any (λ x. x.id == o.id) ws ≡ false
    → (w.id == o.id) ≡ false
    → any (λ x. x.id == o.id) (ws ++ w ∷ []) ≡ false
no_later o w [] once other = ground (arith, other)
no_later o w (x ∷ ws) once other = ground (arith, once, no_later o w ws)

pub Unique-append :
    (ws : List RegisteredWorktree) (w : RegisteredWorktree)
    → Unique ws
    → any (λ o. o.id == w.id) ws ≡ false
    → Unique (ws ++ w ∷ [])
Unique-append [] w u new = (refl, tt)
Unique-append (o ∷ ws) w (once, u) new = (
  no_later o w ws once (ground (arith, new, eq_iff o.id w.id, eq_iff w.id o.id)),
  Unique-append ws w u (ground (arith, new)),
)

pub Referenced-append :
    (ws : List RegisteredWorktree) (w : RegisteredWorktree) (rows : List Selected)
    → Referenced ws rows
    → Referenced (ws ++ w ∷ []) rows
Referenced-append ws w [] h = tt
Referenced-append ws w (s ∷ rows) (here, later) =
    (any-more (λ o. o.id == s.worktree_id) ws (w ∷ []) here, Referenced-append ws w rows later)

Referenced-update :
    (ws : List RegisteredWorktree) (thread : String) (r : Selected) (rows : List Selected)
    → any (λ w. w.id == r.worktree_id) ws ≡ true
    → Referenced ws rows
    → Referenced ws (update_where (of_thread thread) (λ s. r) rows)
Referenced-update ws thread r [] there h = tt
Referenced-update ws thread r (s ∷ rows) there (here, later) = (
  if_elim (λ (x : Selected). any (λ w. w.id == x.worktree_id) ws ≡ true) (of_thread thread s) r s
      (λ _. there) (λ _. here),
  Referenced-update ws thread r rows there later,
)

Referenced-new :
    (ws : List RegisteredWorktree) (r : Selected) (rows : List Selected)
    → any (λ w. w.id == r.worktree_id) ws ≡ true
    → Referenced ws rows
    → Referenced ws (rows ++ r ∷ [])
Referenced-new ws r [] there h = (there, tt)
Referenced-new ws r (s ∷ rows) there (here, later) = (here, Referenced-new ws r rows there later)

pub Referenced-upsert :
    (ws : List RegisteredWorktree) (thread worktree : String) (selected_at : ℕ)
    (rows : List Selected)
    → any (λ w. w.id == worktree) ws ≡ true
    → Referenced ws rows
    → Referenced ws (upsert_worktree_selection thread worktree selected_at rows)
unfolding upsert_worktree_selection
Referenced-upsert ws thread worktree selected_at rows there h =
    if_elim (Referenced ws) (any (of_thread thread) rows) _ _
      (λ _. Referenced-update ws thread _ rows there h) (λ _. Referenced-new ws _ rows there h)
