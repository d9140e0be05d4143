-- ===== src/Worktrees/Selection.antt =====
-- src/state/database.ts `registerAndSelectWorktree`: what is selected afterwards.
use owner_operator.Prelude.{
  ℕ, String, ◌≡◌, refl, ap, subst, ◌∙◌, true, false, not, ◌||◌, Option, none, some, List, [], ◌∷◌,
  ◌++◌, ◌==◌, arith, any, find, any-find-some, find-passes, update_where, if_elim, eq_iff, eq_refl,
  inl, inr, Bool-cases,
}
use owner_operator.Worktrees.{
  RegisteredWorktree, Registry, Selected, of_thread, register_and_select_worktree, registering,
  selected_worktree, chosen, selecting, upsert_worktree_selection, worktree_by_id, worktree_by_path,
}
use owner_operator.Worktrees.Keys.{
  Unique, Referenced, WfRegistry, Unique-append, Referenced-append, Referenced-upsert,
}

abbrev row : String → String → ℕ → Selected
row thread worktree selected_at = record {
  thread_id = thread;
  worktree_id = worktree;
  selected_at = selected_at;
}

find-updated :
    (thread : String) (s : Selected) (rows : List Selected)
    → s.thread_id ≡ thread
    → any (of_thread thread) rows ≡ true
    → find (of_thread thread) (update_where (of_thread thread) (λ o. s) rows) ≡ some s
find-updated thread s [] same h = ground arith
find-updated thread s (o ∷ rows) same h =
    ground (arith, eq_iff s.thread_id thread, find-updated thread s rows)

find-new :
    (thread : String) (s : Selected) (rows : List Selected)
    → s.thread_id ≡ thread
    → any (of_thread thread) rows ≡ false
    → find (of_thread thread) (rows ++ s ∷ []) ≡ some s
find-new thread s [] same h = ground (arith, eq_iff s.thread_id thread)
find-new thread s (o ∷ rows) same h = ground (arith, find-new thread s rows)

find-upsert :
    (thread worktree : String) (selected_at : ℕ) (rows : List Selected)
    → find (of_thread thread) (upsert_worktree_selection thread worktree selected_at rows)
      ≡ some (row thread worktree selected_at)
unfolding upsert_worktree_selection
find-upsert thread worktree selected_at rows =
    if_elim (λ x. find (of_thread thread) x ≡ some (row thread worktree selected_at))
      (any (of_thread thread) rows) _ _ (λ there. find-updated thread _ rows refl there)
      (λ new. find-new thread _ rows refl new)

find-updated_other :
    (thread other : String) (s : Selected) (rows : List Selected)
    → s.thread_id ≡ thread
    → (thread == other) ≡ false
    → find (of_thread other) (update_where (of_thread thread) (λ o. s) rows)
      ≡ find (of_thread other) rows
find-updated_other thread other s [] same ne = refl
find-updated_other thread other s (o ∷ rows) same ne = ground (
  arith,
  eq_iff o.thread_id thread,
  eq_iff o.thread_id other,
  eq_iff thread other,
  find-updated_other thread other s rows same ne,
)

find-appended_other :
    (other : String) (s : Selected) (rows : List Selected)
    → of_thread other s ≡ false
    → find (of_thread other) (rows ++ s ∷ []) ≡ find (of_thread other) rows
find-appended_other other s [] out = ground arith
find-appended_other other s (o ∷ rows) out = ground (arith, find-appended_other other s rows out)

find-upsert_other :
    (thread other worktree : String) (selected_at : ℕ) (rows : List Selected)
    → (thread == other) ≡ false
    → find (of_thread other) (upsert_worktree_selection thread worktree selected_at rows)
      ≡ find (of_thread other) rows
unfolding upsert_worktree_selection
find-upsert_other thread other worktree selected_at rows ne =
    if_elim (λ x. find (of_thread other) x ≡ find (of_thread other) rows)
      (any (of_thread thread) rows) _ _ (λ _. find-updated_other thread other _ rows refl ne)
      (λ _. find-appended_other other _ rows ne)

-- A worktree found by its path is the one of its id.
found-Unique :
    (path : String) (ws : List RegisteredWorktree) (w : RegisteredWorktree)
    → Unique ws
    → worktree_by_path path ws ≡ some w
    → worktree_by_id w.id ws ≡ some w
found-Unique path [] w u e = ground arith
found-Unique path (o ∷ ws) w (new, u) e = elim (Bool-cases (o.path == path)) [
  | inl here ↦ let same : o ≡ w = ground arith in rw (same, eq_refl w.id) refl
  | inr below ↦
      let found = found-Unique path ws w u (ground arith) in
      let there = any-find-some (λ x. x.id == w.id) ws w found in
      ground (arith, eq_iff o.id w.id, there, new, found)
]

-- What a registration has done: `w` is what the thread asked for, `given` what it has now; `other` has
-- what it had, if anything.
abbrev pub IsSelected :
    (thread other : String) → (w given : RegisteredWorktree) → (db db' : Registry) → Type 0
IsSelected thread other w given db db' =
    WfRegistry db'
    × (selected_worktree thread db' ≡ some given)
    × (given.path ≡ w.path)
    × (given.repository ≡ w.repository)
    × (given.git_common_dir ≡ w.git_common_dir)
    × (selected_worktree other db' ≡ selected_worktree other db)

selected-upsert :
    (thread : String) (w : RegisteredWorktree) (selected_at : ℕ) (db : Registry)
    → worktree_by_id w.id db.worktrees ≡ some w
    → selected_worktree thread (selecting thread w selected_at db).0 ≡ some w
unfolding selected_worktree
selected-upsert thread w selected_at db found =
    ap (λ s. chosen s db.worktrees) (find-upsert thread w.id selected_at db.selections) ∙ found

kept-upsert :
    (thread other : String) (w : RegisteredWorktree) (selected_at : ℕ) (db : Registry)
    → (thread == other) ≡ false
    → selected_worktree other (selecting thread w selected_at db).0 ≡ selected_worktree other db
unfolding selected_worktree
kept-upsert thread other w selected_at db ne =
    ap (λ s. chosen s db.worktrees)
      (find-upsert_other thread other w.id selected_at db.selections ne)

found_new :
    (ws : List RegisteredWorktree) (w : RegisteredWorktree)
    → any (λ o. o.id == w.id) ws ≡ false
    → worktree_by_id w.id (ws ++ w ∷ []) ≡ some w
found_new [] w h = ground (arith, eq_refl w.id)
found_new (o ∷ ws) w h = ground (arith, found_new ws w)

found_again :
    (i : String) (ws : List RegisteredWorktree) (w : RegisteredWorktree)
    → any (λ o. o.id == i) ws ≡ true
    → worktree_by_id i (ws ++ w ∷ []) ≡ worktree_by_id i ws
found_again i [] w h = ground (arith, h)
found_again i (o ∷ ws) w h = ground (arith, h, found_again i ws w)

chosen-append :
    (other : String) (rows : List Selected) (ws : List RegisteredWorktree) (w : RegisteredWorktree)
    → Referenced ws rows
    → chosen (find (of_thread other) rows) (ws ++ w ∷ []) ≡ chosen (find (of_thread other) rows) ws
chosen-append other [] ws w h = refl
chosen-append other (s ∷ rows) ws w (here, later) =
    if_elim (λ o. chosen o (ws ++ w ∷ []) ≡ chosen o ws) (of_thread other s) (some s)
      (find (of_thread other) rows) (λ _. found_again s.worktree_id ws w here)
      (λ _. chosen-append other rows ws w later)

pair_of :
    Option (Registry × RegisteredWorktree)
    → (Registry × RegisteredWorktree)
    → Registry × RegisteredWorktree
pair_of none d = d
pair_of (some x) d = x

some-parts : (x y : Registry × RegisteredWorktree) → some x ≡ some y → (x.0 ≡ y.0) × (x.1 ≡ y.1)
unfolding pair_of
some-parts x y h = let e : x ≡ y = ap (λ o. pair_of o x) h in (ap (λ p. p.0) e, ap (λ p. p.1) e)

selecting-IsSelected :
    (thread other : String) (w given one : RegisteredWorktree) (selected_at : ℕ)
    (before db db' : Registry)
    → (thread == other) ≡ false
    → WfRegistry db
    → worktree_by_id one.id db.worktrees ≡ some one
    → selected_worktree other db ≡ selected_worktree other before
    → one.path ≡ w.path
    → one.repository ≡ w.repository
    → one.git_common_dir ≡ w.git_common_dir
    → some (selecting thread one selected_at db) ≡ some (db', given)
    → IsSelected thread other w given before db'
selecting-IsSelected thread other w given one selected_at before db db' ne wf found same path repo
      common h =
    let (tables, is_given) = some-parts _ (db', given) h in
    let there = any-find-some (λ o. o.id == one.id) db.worktrees one found in
    (
      subst WfRegistry tables (record {
        unique = wf.unique;
        referenced =
            Referenced-upsert db.worktrees thread one.id selected_at db.selections there
              wf.referenced;
      }),
      rw (← tables, ← is_given) (selected-upsert thread one selected_at db found),
      rw (← is_given) path,
      rw (← is_given) repo,
      rw (← is_given) common,
      rw (← tables) (kept-upsert thread other one selected_at db ne ∙ same),
    )

registering-IsSelected :
    (thread other : String) (w given : RegisteredWorktree) (selected_at : ℕ)
    (existing : Option RegisteredWorktree) (db db' : Registry)
    → WfRegistry db
    → (thread == other) ≡ false
    → worktree_by_path w.path db.worktrees ≡ existing
    → registering thread w selected_at existing db ≡ some (db', given)
    → IsSelected thread other w given db db'
registering-IsSelected thread other w given selected_at (some e) db db' wf ne path =
    if_elim (λ x. x ≡ some (db', given) → IsSelected thread other w given db db')
      (not (e.repository == w.repository) || not (e.git_common_dir == w.git_common_dir)) _ _
      (λ _ h. absurd (ground arith))
      (λ agrees h.
        selecting-IsSelected thread other w given e selected_at db db db' ne wf
          (found-Unique w.path db.worktrees e wf.unique path) refl
          ((eq_iff e.path w.path).0 (find-passes (λ o. o.path == w.path) db.worktrees e path))
          (ground (arith, eq_iff e.repository w.repository))
          (ground (arith, eq_iff e.git_common_dir w.git_common_dir)) h)
registering-IsSelected thread other w given selected_at none db db' wf ne path =
    if_elim (λ x. x ≡ some (db', given) → IsSelected thread other w given db db')
      (any (λ o. o.id == w.id) db.worktrees) _ _ (λ _ h. absurd (ground arith))
      (λ new h.
        selecting-IsSelected thread other w given w selected_at db
          (record db { worktrees = db.worktrees ++ w ∷ [] }) db' ne
          (record {
            unique = Unique-append db.worktrees w wf.unique new;
            referenced = Referenced-append db.worktrees w db.selections wf.referenced;
          })
          (found_new db.worktrees w new)
          (unfold selected_worktree in
            chosen-append other db.selections db.worktrees w wf.referenced)
          refl refl refl h)

-- In a registry with distinct worktree ids, whose selections refer to worktrees that stand, a
-- registration that succeeds selects for its thread a worktree of the path, repository and common
-- directory that were asked for, leaves every other thread with what it had, a worktree or none, and
-- leaves such a registry.
pub register_and_select_worktree-IsSelected :
    (thread other : String) (w given : RegisteredWorktree) (selected_at : ℕ) (db db' : Registry)
    → WfRegistry db
    → (thread == other) ≡ false
    → register_and_select_worktree thread w selected_at db ≡ some (db', given)
    → IsSelected thread other w given db db'
unfolding register_and_select_worktree
register_and_select_worktree-IsSelected thread other w given selected_at db db' wf ne h =
    registering-IsSelected thread other w given selected_at (worktree_by_path w.path db.worktrees)
      db db' wf ne refl h
