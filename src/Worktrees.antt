-- ===== src/Worktrees.antt =====
-- src/state/database.ts: the tables `worktrees` and `thread_worktrees`, with the rows of
-- packages/core/src/worktrees.ts. A throw is `none`, and its transaction is rolled back.
pub mod Keys
pub mod Selection
use Prim.Native.Nat.{Ordering}
use Prim.Native.String
use owner_operator.Prelude.{
  ℕ, String, Bool, true, false, not, ◌&&◌, ◌||◌, Option, none, some, List, [], ◌∷◌, ◌++◌, ◌==◌,
  if◌then◌else◌, any, find, keep, ltb, nat_eq, sort_by, update_where,
}

pub record RegisteredWorktree : Type 0 where
  pub id : String
  pub repository : String
  pub path : String
  pub git_common_dir : String
  pub created_by_thread_id : String
  pub created_at : ℕ

-- A row of `thread_worktrees`.
pub record Selected : Type 0 where
  pub thread_id : String
  pub worktree_id : String
  pub selected_at : ℕ

pub record Registry : Type 0 where
  pub worktrees : List RegisteredWorktree
  pub selections : List Selected

abbrev pub worktree_by_id : String → List RegisteredWorktree → Option RegisteredWorktree
worktree_by_id id worktrees = find (λ w. w.id == id) worktrees

abbrev pub worktree_by_path : String → List RegisteredWorktree → Option RegisteredWorktree
worktree_by_path path worktrees = find (λ w. w.path == path) worktrees

abbrev pub of_thread : String → Selected → Bool
of_thread id s = s.thread_id == id

unfoldable pub upsert_worktree_selection :
    (thread_id worktree_id : String) → (selected_at : ℕ) → List Selected → List Selected
upsert_worktree_selection thread worktree selected_at rows =
    let row : Selected = record {
      thread_id = thread;
      worktree_id = worktree;
      selected_at = selected_at;
    } in
    if any (of_thread thread) rows
    then update_where (of_thread thread) (λ s. row) rows
    else rows ++ row ∷ []

abbrev pub selecting :
    (thread_id : String)
    → RegisteredWorktree
    → (selected_at : ℕ) → Registry
    → Registry × RegisteredWorktree
selecting thread w selected_at db =
    (record db { selections = upsert_worktree_selection thread w.id selected_at db.selections }, w)

-- The worktree that the path has, or a new row: its id is the primary key.
abbrev pub registering :
    (thread_id : String)
    → RegisteredWorktree
    → (selected_at : ℕ) → Option RegisteredWorktree
    → Registry
    → Option (Registry × RegisteredWorktree)
registering thread w selected_at (some existing) db =
    if not (existing.repository == w.repository)
      || not (existing.git_common_dir == w.git_common_dir)
    then none
    else some (selecting thread existing selected_at db)
registering thread w selected_at none db =
    if any (λ o. o.id == w.id) db.worktrees
    then none
    else some (selecting thread w selected_at (record db { worktrees = db.worktrees ++ w ∷ [] }))

unfoldable pub register_and_select_worktree :
    (thread_id : String)
    → RegisteredWorktree
    → (selected_at : ℕ) → Registry
    → Option (Registry × RegisteredWorktree)
register_and_select_worktree thread w selected_at db =
    registering thread w selected_at (worktree_by_path w.path db.worktrees) db

unfoldable pub select_worktree :
    (thread_id worktree_id : String)
    → (selected_at : ℕ) → Registry
    → Option (Registry × RegisteredWorktree)
select_worktree thread worktree selected_at db = elim (worktree_by_id worktree db.worktrees) [
  | none ↦ none
  | some w ↦ some (selecting thread w selected_at db)
]

abbrev pub chosen : Option Selected → List RegisteredWorktree → Option RegisteredWorktree
chosen none worktrees = none
chosen (some s) worktrees = worktree_by_id s.worktree_id worktrees

-- The join of the selection of a thread with its worktree.
unfoldable pub selected_worktree : (thread_id : String) → Registry → Option RegisteredWorktree
selected_worktree thread db = chosen (find (of_thread thread) db.selections) db.worktrees

abbrev text_before : String → String → Bool
text_before a b = elim (String.compare a b) [ Ordering.gt ↦ false | _ ↦ true ]

abbrev created_before : RegisteredWorktree → RegisteredWorktree → Bool
created_before v w =
    ltb v.created_at w.created_at || nat_eq v.created_at w.created_at && text_before v.id w.id

unfoldable pub list_worktrees : (repository : Option String) → Registry → List RegisteredWorktree
list_worktrees none db = sort_by created_before db.worktrees
list_worktrees (some repository) db =
    sort_by created_before (keep (λ w. w.repository == repository) db.worktrees)
