-- ===== src/AgentState/Attention.antt =====
-- packages/core/src/agent-state.ts `deriveParentAgentState`: the counts of a view and what it shows.
use owner_operator.Prelude.{
  ℕ, zero, suc, ◌≤◌, String, ◌≡◌, refl, ◌∙◌, Bool, true, false, ◌&&◌, ◌||◌, some, List, [], ◌∷◌,
  arith, map, take, length, count, sort_by, insert_by, Bool-cases, inl, inr, if_elim, ltb, nat_eq,
}
use owner_operator.AgentRuns.{AgentRun}
use owner_operator.AgentState.{
  AgentRunView, AgentRunViewCategory, active, attention, category_for, derive_parent_agent_state,
  derive_run_view, is_attention, recent, view_before, rank,
}

-- What passes a test stands before what does not.
abbrev FirstOf : (AgentRun → Bool) → List AgentRun → Type 0
FirstOf q [] = Unit
FirstOf q (r ∷ rs) = (q r ≡ false → count q rs ≡ 0) × FirstOf q rs

count-insert_by :
    (q : AgentRun → Bool) (before : AgentRun → AgentRun → Bool) (r : AgentRun) (rs : List AgentRun)
    → count q (insert_by before r rs) ≡ count q (r ∷ rs)
unfolding insert_by
count-insert_by q before r [] = refl
count-insert_by q before r (s ∷ rs) = ground (arith, count-insert_by q before r rs)

count-sort_by :
    (q : AgentRun → Bool) (before : AgentRun → AgentRun → Bool) (rs : List AgentRun)
    → count q (sort_by before rs) ≡ count q rs
unfolding sort_by
count-sort_by q before [] = refl
count-sort_by q before (r ∷ rs) =
    ground (arith, count-insert_by q before r (sort_by before rs), count-sort_by q before rs)

-- A run that passes goes before one that does not.
abbrev Prefers : (AgentRun → Bool) → (AgentRun → AgentRun → Bool) → Type 0
Prefers q before =
    (r s : AgentRun) → q r ≡ true → q s ≡ false → (before r s ≡ true) × (before s r ≡ false)

insert_by-FirstOf :
    (q : AgentRun → Bool) (before : AgentRun → AgentRun → Bool) (r : AgentRun) (rs : List AgentRun)
    → Prefers q before
    → FirstOf q rs
    → FirstOf q (insert_by before r rs)
unfolding insert_by
insert_by-FirstOf q before r [] prefers first = ((λ out. refl), tt)
insert_by-FirstOf q before r (s ∷ rs) prefers (head, first) =
    if_elim (FirstOf q) (before r s) _ _
      (λ yes. ((λ out. ground (arith, prefers s r, head)), (head, first)))
      (λ no. (
        (λ out. ground (arith, prefers r s, head, count-insert_by q before r rs)),
        insert_by-FirstOf q before r rs prefers first,
      ))

sort_by-FirstOf :
    (q : AgentRun → Bool) (before : AgentRun → AgentRun → Bool) (rs : List AgentRun)
    → Prefers q before
    → FirstOf q (sort_by before rs)
unfolding sort_by
sort_by-FirstOf q before [] prefers = tt
sort_by-FirstOf q before (r ∷ rs) prefers =
    insert_by-FirstOf q before r (sort_by before rs) prefers (sort_by-FirstOf q before rs prefers)

count-take :
    (q : AgentRun → Bool) (n : ℕ) (rs : List AgentRun)
    → FirstOf q rs
    → count q rs ≤ n
    → count q (take n rs) ≡ count q rs
count-take q zero rs first fits = ground arith
count-take q (suc n) [] first fits = refl
count-take q (suc n) (r ∷ rs) (head, first) fits = elim (Bool-cases (q r)) [
  | inl shown ↦ rw (shown, count-take q n rs first (ground (arith, shown))) refl
  | inr out ↦
      let none_below = head out in
      let same = count-take q n rs first (omega arith) in rw (out, same) refl
]

ranked :
    (a b : AgentRunViewCategory) (x y : Bool)
    → is_attention a ≡ true
    → is_attention b ≡ false
    → ((ltb (rank a) (rank b) || nat_eq (rank a) (rank b) && x) ≡ true)
      × ((ltb (rank b) (rank a) || nat_eq (rank b) (rank a) && y) ≡ false)
ranked attention attention x y h k = absurd (ground arith)
ranked attention active x y h k = (refl, refl)
ranked attention recent x y h k = (refl, refl)
ranked active b x y h k = absurd (ground arith)
ranked recent b x y h k = absurd (ground arith)

view_before-Prefers :
    (text_before : String → String → Bool) (runs : List AgentRun)
    → Prefers (λ r. is_attention (category_for r runs)) (view_before text_before runs)
view_before-Prefers text_before runs r s h k =
    ranked (category_for r runs) (category_for s runs) _ _ h k

count-views :
    (environment_eligible : AgentRun → Bool) (now : ℕ) (all shown : List AgentRun)
    → count
        (λ (v : AgentRunView). is_attention v.category)
        (map (derive_run_view environment_eligible now all) shown)
      ≡ count (λ r. is_attention (category_for r all)) shown
unfolding derive_run_view
count-views eligible now all [] = refl
count-views eligible now all (r ∷ shown) = ground (arith, count-views eligible now all shown)

length-views :
    (environment_eligible : AgentRun → Bool) (now n : ℕ) (all shown : List AgentRun)
    → length (map (derive_run_view environment_eligible now all) (take n shown)) ≤ n
length-views eligible now zero all shown = omega arith
length-views eligible now (suc n) all [] = omega arith
length-views eligible now (suc n) all (r ∷ shown) =
    omega (arith, length-views eligible now n all shown)

-- If its limit has room for the runs that need attention, a view shows each of them: as many of its
-- rows are in that category as it counts. It shows no more rows than its limit.
pub derive_parent_agent_state-attention :
    (text_before : String → String → Bool) (environment_eligible : AgentRun → Bool) (now limit : ℕ)
    (runs : List AgentRun)
    → count (λ r. is_attention (category_for r runs)) runs ≤ limit
    → let view = derive_parent_agent_state text_before environment_eligible now (some limit) runs in
      (length view.runs ≤ limit)
      × (count (λ (v : AgentRunView). is_attention v.category) view.runs ≡ view.counts.attention)
unfolding derive_parent_agent_state
derive_parent_agent_state-attention text_before eligible now limit runs fits =
    let ordered = sort_by (view_before text_before runs) runs in
    let total =
      count-sort_by (λ r. is_attention (category_for r runs)) (view_before text_before runs) runs in
    (
      length-views eligible now limit runs ordered,
      count-views eligible now runs (take limit ordered)
          ∙ count-take (λ r. is_attention (category_for r runs)) limit ordered
              (sort_by-FirstOf (λ r. is_attention (category_for r runs))
                (view_before text_before runs) runs (view_before-Prefers text_before runs))
              (omega (arith, total, fits))
          ∙ total,
    )
