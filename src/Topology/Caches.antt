-- ===== src/Topology/Caches.antt =====
-- `_read_llc_clusters`, up to the caches that it selects: the files of one cache are a record.
pub mod Laws
use native.Mathlib.Decide.{ℕ_discrete}
use claw_tune.Base.{
  ℕ, zero, suc, ◌+◌, ◌*◌, Bool, true, false, not, ◌&&◌, ◌||◌, Option, none, some, is_none, ℤ, pos,
  negsuc, List, [], ◌∷◌, if◌then◌else◌, ltb, leb, ◌==◌,
}
use claw_tune.Dict.{Dict, get, put}
use claw_tune.Topology.Text.{Text, is_nil, int}
use claw_tune.Topology.CpuList.{parse_cpu_list}

-- What stands in `cpu<N>/cache/index*`: the number of the CPU, if the directory has one, and the
-- texts of the files that can be read.
pub record CacheFiles : Type 0 where
  pub cpu : Option ℕ
  pub type : Option Text
  pub level : Option Text
  pub shared_cpu_list : Option Text

-- `text.lower()`, for the letters of the words it is compared with.
abbrev pub lower : Text → Text
lower [] = []
lower (c ∷ s) = (if leb b'A' c && leb c b'Z' then c + 32 else c) ∷ lower s

unfoldable pub is_same : Text → Text → Bool
is_same [] [] = true
is_same [] (d ∷ t) = false
is_same (c ∷ s) [] = false
is_same (c ∷ s) (d ∷ t) = c == d && is_same s t

abbrev pub data_word : Text
data_word = b'd' ∷ b'a' ∷ b't' ∷ b'a' ∷ []

abbrev pub unified_word : Text
unified_word = b'u' ∷ b'n' ∷ b'i' ∷ b'f' ∷ b'i' ∷ b'e' ∷ b'd' ∷ []

-- `text or ""`
abbrev pub or_empty : Option Text → Text
or_empty none = []
or_empty (some text) = text

-- `cpu in cpus`
unfoldable pub is_in : ℕ → List ℕ → Bool
is_in cpu [] = false
is_in cpu (x ∷ xs) = x == cpu || is_in cpu xs

-- `cpus.intersection_update(other)`
unfoldable pub intersection : List ℕ → List ℕ → List ℕ
intersection [] other = []
intersection (x ∷ xs) other =
    let rest = intersection xs other in if is_in x other then x ∷ rest else rest

-- The tuple that the loop keeps for a CPU.
pub record Highest : Type 0 where
  pub level : ℕ
  pub is_unified : Bool
  pub shared : List ℕ

abbrev pub highest_of : Bool → ℕ → List ℕ → Option Highest
highest_of is_unified level [] = none
highest_of is_unified level (x ∷ xs) =
    some (record { level = level; is_unified = is_unified; shared = x ∷ xs })

-- The tests of the level and of the CPUs that share the cache.
abbrev pub usable : Bool → Option ℤ → Option (List ℕ) → List ℕ → Option Highest
usable is_unified (some (pos (suc level))) (some shared) effective =
    highest_of is_unified (suc level) (intersection shared effective)
usable is_unified _ _ effective = none

-- The cache of a CPU that passes every test of the loop.
unfoldable pub candidate : List ℕ → CacheFiles → Option (ℕ × Highest)
candidate effective files = elim files.cpu [
  | none ↦ none
  | some cpu ↦
      let cache_type = lower (or_empty files.type) in
      let is_unified = is_same cache_type unified_word in
      if not (is_in cpu effective)
      then none
      else if not (is_same cache_type data_word || is_unified)
      then none
      else elim (usable is_unified (int (or_empty files.level))
          (parse_cpu_list files.shared_cpu_list) effective) [ none ↦ none | some h ↦ some (cpu, h) ]
]

-- `(level, normalized_type == "Unified") > (previous[0], previous[1] == "Unified")`
abbrev pub is_higher : Highest → Highest → Bool
is_higher h previous =
    ltb previous.level h.level
    || (h.level == previous.level && (h.is_unified && not previous.is_unified))

abbrev pub is_better : Highest → Option Highest → Bool
is_better h none = true
is_better h (some previous) = is_higher h previous

abbrev pub keep_higher : Option (ℕ × Highest) → Dict ℕ Highest → Dict ℕ Highest
keep_higher none d = d
keep_higher (some (cpu, h)) d =
    if is_better h (get ℕ_discrete cpu d) then put ℕ_discrete cpu h d else d

-- The loop over the caches.
unfoldable pub highest_from : List ℕ → List CacheFiles → Dict ℕ Highest → Dict ℕ Highest
highest_from effective [] d = d
highest_from effective (files ∷ more) d =
    highest_from effective more (keep_higher (candidate effective files) d)

abbrev pub highest_by_cpu : List ℕ → List CacheFiles → Dict ℕ Highest
highest_by_cpu effective caches = highest_from effective caches []
