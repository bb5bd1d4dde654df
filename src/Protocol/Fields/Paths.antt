-- ===== src/Protocol/Fields/Paths.antt =====
-- What `safe_relative_path` promises: the path names a place strictly below the directory that it
-- is joined to, where `/` and `\` both separate components.
use certael_agent.Prelude.{
  ℕ, Bool, true, false, ◌||◌, List, [], ◌∷◌, ◌++◌, ◌≡◌, ◌≢◌, arith, all, any, All, all-All,
  is_empty, same, if◌then◌else◌, ◌==◌,
}
use mathlib.Core.List.{append-nil, append_assoc}
use certael_agent.Text.{Text, starts_with}
use certael_agent.Text.Split.{split, split_clean, split_ne}
use certael_agent.Protocol.Fields.{
  is_separator, slash, backslash, dot, dot_dot, plain_part, safe_relative_path,
}

-- The directory reached from the directory `at` by one component: nothing for an empty one and for
-- `.`, one step up for `..` (the root is its own parent).
unfoldable pub parent : List Text → List Text
parent [] = []
parent (d ∷ []) = []
parent (d ∷ e ∷ ds) = d ∷ parent (e ∷ ds)

unfoldable pub enter : List Text → Text → List Text
enter at part =
    if is_empty part || same part dot
    then at
    else if same part dot_dot
    then parent at
    else (at ++ (part ∷ []))

unfoldable pub resolve_from : List Text → List Text → List Text
resolve_from at [] = at
resolve_from at (part ∷ parts) = resolve_from (enter at part) parts

-- Joining a path to a directory and following it: a path that starts with a separator starts over
-- at the root.
unfoldable pub resolve_path : (ℕ → Bool) → List Text → Text → List Text
resolve_path sep at [] = at
resolve_path sep at (c ∷ path) =
    if sep c then resolve_from [] (split sep (c ∷ path)) else resolve_from at (split sep (c ∷ path))

enter_plain :
    (at : List Text) (part : Text) → plain_part part ≡ true → enter at part ≡ at ++ (part ∷ [])
unfolding enter plain_part
enter_plain at part h = ground arith

resolve_from_plain :
    (at parts : List Text) → all plain_part parts ≡ true → resolve_from at parts ≡ at ++ parts
unfolding resolve_from all
resolve_from_plain at [] h = ground (arith, append-nil at)
resolve_from_plain at (part ∷ parts) h = ground (
  arith,
  enter_plain at part,
  resolve_from_plain (at ++ (part ∷ [])) parts,
  append_assoc at (part ∷ []) parts,
)

starts_with_one :
    (c s : ℕ) (path : Text) → starts_with (c ∷ path) (s ∷ []) ≡ false → (c == s) ≡ false
unfolding starts_with same
starts_with_one c s [] h = ground arith
starts_with_one c s (d ∷ path) h = ground arith

-- A path that `safe_relative_path` accepts, joined to any directory, resolves to that directory
-- followed by the path's own parts: it never leaves the directory, and there is at least one part,
-- each of them free of separators and none of them empty, `.` or `..`.
pub safe_relative_path-stays :
    (root : List Text) (path : Text)
    → safe_relative_path path ≡ true
    → (resolve_path is_separator root path ≡ root ++ split is_separator path)
      × (split is_separator path ≢ [])
      × All (λ p. any is_separator p ≡ false) (split is_separator path)
      × All (λ p. plain_part p ≡ true) (split is_separator path)
unfolding safe_relative_path resolve_path is_separator
safe_relative_path-stays root [] h = cc
safe_relative_path-stays root (c ∷ path) h =
    let parts = split is_separator (c ∷ path) in
    let plain : all plain_part parts ≡ true = ground arith in
    let relative : is_separator c ≡ false =
      ground (arith, starts_with_one c slash path, starts_with_one c backslash path) in
    let (p, ps, e) = split_ne is_separator (c ∷ path) in
    (
      rw relative (resolve_from_plain root parts plain),
      λ none. cc,
      split_clean is_separator (c ∷ path),
      all-All plain_part parts plain,
    )
