-- ===== src/Threads/Blacklist.antt =====
-- packages/core/src/blacklist.mjs `isBlacklisted`, and src/state/database.ts `purgeBlacklisted`. `fold`
-- is the `toLowerCase` of JavaScript; SQLite folds only the letters of ASCII.
use Prim.Native.Char.{code}
use Prim.Native.String
use Prim.Native.String.{String}
use owner_operator.Prelude.{
  ℕ, ◌+◌, Bool, true, false, not, ◌&&◌, ◌||◌, Option, none, some, List, [], ◌∷◌, ◌==◌,
  if◌then◌else◌, nat_eq, leb, any, keep, count, map, truthy, get_or,
}
use owner_operator.Threads.{Thread, Threads, DetailsRow, Watermark}

pub record Blacklist : Type 0 where
  pub paths : List String
  pub repos : List String

abbrev pub codes : String → List ℕ
codes String.[] = []
codes (String.◌∷◌ c s) = code c ∷ codes s

abbrev pub same_codes : List ℕ → List ℕ → Bool
same_codes [] [] = true
same_codes (a ∷ as') (b ∷ bs) = nat_eq a b && same_codes as' bs
same_codes as' bs = false

-- `text.startsWith(prefix)`.
abbrev pub starts_with : (prefix text : List ℕ) → Bool
starts_with [] text = true
starts_with (a ∷ as') [] = false
starts_with (a ∷ as') (b ∷ bs) = nat_eq a b && starts_with as' bs

abbrev in_tree : (fold : String → String) → (cwd path : String) → Bool
in_tree fold cwd path =
    (fold cwd == fold path) || starts_with (codes (String.◌++◌ (fold path) "/")) (codes (fold cwd))

-- An empty list blocks nothing: no path and no repository matches.
unfoldable pub is_blacklisted :
    (fold : String → String) → Blacklist → (cwd repo : Option String) → Bool
is_blacklisted fold b cwd repo =
    truthy repo && any (λ r. fold r == fold (get_or repo "")) b.repos
    || truthy cwd && any (in_tree fold (get_or cwd "")) b.paths

abbrev pub ascii_lower : ℕ → ℕ
ascii_lower c = if leb 65 c && leb c 90 then c + 32 else c

-- `lower(a) = lower(b)`, and `a = b COLLATE NOCASE`.
abbrev pub same_nocase : String → String → Bool
same_nocase a b = same_codes (map ascii_lower (codes a)) (map ascii_lower (codes b))

-- What SQLite's LIKE does with `%` (37): some end of the text matches what follows.
abbrev some_end : (List ℕ → Bool) → List ℕ → Bool
some_end matches [] = matches []
some_end matches (c ∷ cs) = matches (c ∷ cs) || some_end matches cs

abbrev one_code : ℕ → (List ℕ → Bool) → List ℕ → Bool
one_code p matches [] = false
one_code p matches (c ∷ cs) = (nat_eq p 95 || nat_eq (ascii_lower p) (ascii_lower c)) && matches cs

-- SQLite's LIKE on codes: `%` is any text, `_` (95) any character, the rest without case.
unfoldable pub like : (pattern : List ℕ) → (text : List ℕ) → Bool
like [] [] = true
like [] (c ∷ cs) = false
like (p ∷ ps) text = elim (nat_eq p 37) [
  | true ↦ some_end (like ps) text
  | false ↦ one_code p (like ps) text
]

abbrev has_repo : Option String → String → Bool
has_repo none repo = false
has_repo (some r) repo = same_nocase r repo

abbrev has_path : Option String → String → Bool
has_path none path = false
has_path (some project) path =
    same_nocase project path || like (codes (String.◌++◌ path "/%")) (codes project)

-- The condition of `purgeBlacklisted`.
unfoldable pub is_purged : Blacklist → Thread → Bool
unfolding like
is_purged b t = any (has_repo t.repo) b.repos || any (has_path t.project) b.paths

abbrev pub purges : Blacklist → List Thread → String → Bool
purges b threads id = any (λ (t : Thread). (t.id == id) && is_purged b t) threads

-- The details and the watermarks of a deleted thread go with it.
unfoldable pub purge_blacklisted : Blacklist → Threads → Threads × ℕ
purge_blacklisted b db = (
  record {
    threads = keep (λ t. not (is_purged b t)) db.threads;
    details = keep (λ (d : DetailsRow). not (purges b db.threads d.thread_id)) db.details;
    watermarks = keep (λ (w : Watermark). not (purges b db.threads w.thread_id)) db.watermarks;
  },
  count (is_purged b) db.threads,
)
