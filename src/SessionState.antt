-- ===== src/SessionState.antt =====
-- packages/core/src/session-state.ts `arrangeSessionState`: the order in which every surface shows
-- the sessions. Instants are milliseconds.
pub mod Members
pub mod Chains
pub mod Depths
pub mod Shown
pub mod Ids
pub mod Tops
pub mod Order
use Prim.Native.Char.{code}
use Prim.Native.Nat.{Ordering}
use Prim.Native.String
use owner_operator.Prelude.{
  ℕ, zero, suc, ◌+◌, ◌-◌, ◌/◌, ◌%◌, String, Bool, true, false, not, ◌&&◌, Option, none, some, List,
  [], ◌∷◌, ◌++◌, ◌==◌, if◌then◌else◌, nat_eq, ltb, any, keep, length, sort_by,
}
use owner_operator.Threads.Owner.{Snooze}

-- `Exclude<ThreadState, "done">`.
pub data OpenState : Type 0 where
  needs_you working idle : OpenState

pub data SessionSection : Type 0 where
  needs_you working idle snoozed : SessionSection

abbrev pub session_sections : List SessionSection
session_sections =
    SessionSection.needs_you ∷ SessionSection.working ∷ SessionSection.idle ∷ SessionSection.snoozed
    ∷ []

abbrev pub same_section : SessionSection → SessionSection → Bool
same_section SessionSection.needs_you SessionSection.needs_you = true
same_section SessionSection.working SessionSection.working = true
same_section SessionSection.idle SessionSection.idle = true
same_section SessionSection.snoozed SessionSection.snoozed = true
same_section s t = false

pub record SessionFacts : Type 0 where
  pub id : String
  pub state : OpenState
  pub snooze : Option Snooze
  pub parent_thread_id : Option String
  pub created_at : Option ℕ
  pub last_message_at : Option ℕ

pub record Arranged : Type 0 where
  pub row : SessionFacts
  pub section : SessionSection
  pub depth : ℕ

-- A text as JavaScript compares it: by its UTF-16 units.
abbrev with_units : ℕ → List ℕ → List ℕ
with_units c rest =
    if ltb c 0x10000
    then c ∷ rest
    else (0xd800 + (c - 0x10000) / 1024) ∷ (0xdc00 + (c - 0x10000) % 1024) ∷ rest

unfoldable units : String → List ℕ
units String.[] = []
units (String.◌∷◌ c s) = with_units (code c) (units s)

unfoldable units_before : List ℕ → List ℕ → Bool
units_before us [] = false
units_before [] (v ∷ vs) = true
units_before (u ∷ us) (v ∷ vs) =
    let rest = units_before us vs in if ltb u v then true else nat_eq u v && rest

unfoldable pub id_before : String → String → Bool
unfolding units units_before
id_before a b = units_before (units a) (units b)

-- `newestFirst`, the sign of its result: the first of two comes before, after, or neither.
abbrev pub newest_first : Option ℕ → Option ℕ → Ordering
newest_first none none = Ordering.eq
newest_first none (some b) = Ordering.gt
newest_first (some a) none = Ordering.lt
newest_first (some a) (some b) =
    if nat_eq a b then Ordering.eq else if ltb b a then Ordering.lt else Ordering.gt

abbrev pub or_by_id : Ordering → String → String → Ordering
or_by_id Ordering.eq a b =
    if id_before a b then Ordering.lt else if id_before b a then Ordering.gt else Ordering.eq
or_by_id o a b = o

abbrev pub by_key : (SessionFacts → Option ℕ) → SessionFacts → SessionFacts → Ordering
by_key key a b = or_by_id (newest_first (key a) (key b)) a.id b.id

abbrev pub section_key : SessionSection → SessionFacts → Option ℕ
section_key SessionSection.working r = r.created_at
section_key s r = r.last_message_at

-- `Array.prototype.sort` is stable: an earlier entry stays above one that it does not come after.
abbrev pub stays_above : Ordering → Bool
stays_above Ordering.gt = false
stays_above o = true

unfoldable pub sorted : (SessionFacts → Option ℕ) → List SessionFacts → List SessionFacts
unfolding sort_by
sorted key rows = sort_by (λ a b. stays_above (by_key key a b)) rows

abbrev pub is_row : String → SessionFacts → Bool
is_row id r = r.id == id

abbrev pub parent_is : (String → Bool) → Option String → Bool
parent_is test none = false
parent_is test (some p) = test p

abbrev pub state_section : OpenState → SessionSection
state_section OpenState.needs_you = SessionSection.needs_you
state_section OpenState.working = SessionSection.working
state_section OpenState.idle = SessionSection.idle

abbrev section_under : Option Snooze → OpenState → SessionSection
section_under none s = state_section s
section_under (some snooze) s = SessionSection.snoozed

abbrev pub root_section : SessionFacts → SessionSection
root_section r = section_under r.snooze r.state

module _ {A B : Type 0} where
  -- `for … of`, where each round pushes what it has.
  unfoldable pub each : (A → List B) → List A → List B
  each f [] = []
  each f (x ∷ xs) = f x ++ each f xs

module _ (rows : List SessionFacts) where
  -- A row whose parent is in the input goes to the children of its parent, the others are roots.
  abbrev pub has_parent : SessionFacts → Bool
  has_parent r = parent_is (λ p. any (is_row p) rows) r.parent_thread_id

  abbrev pub is_child_of : String → SessionFacts → Bool
  is_child_of id r = has_parent r && parent_is (λ p. p == id) r.parent_thread_id

  abbrev pub children_of : String → List SessionFacts
  children_of id = keep (is_child_of id) rows

  abbrev pub is_root_of : SessionSection → SessionFacts → Bool
  is_root_of section r = not (has_parent r) && same_section (root_section r) section

  abbrev pub roots_of : SessionSection → List SessionFacts
  roots_of section = keep (is_root_of section) rows

  -- `emit`, on fuel.
  unfoldable pub emit : ℕ → SessionSection → ℕ → SessionFacts → List Arranged
  unfolding each sorted
  emit zero section depth row = []
  emit (suc fuel) section depth row =
      record { row = row; section = section; depth = depth }
      ∷ each (emit fuel section (suc depth)) (sorted (λ r. r.created_at) (children_of row.id))

  unfoldable pub emit_section : SessionSection → List Arranged
  unfolding emit
  emit_section section =
      each (emit (length rows) section 0) (sorted (section_key section) (roots_of section))

  unfoldable pub arrange_session_state : List Arranged
  unfolding emit_section
  arrange_session_state = each emit_section session_sections
