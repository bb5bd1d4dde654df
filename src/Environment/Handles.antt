-- ===== src/Environment/Handles.antt =====
-- The handles in the environment of a protected game.
use mathlib.Core.Path.{subst}
use certael_agent.Runtime.Observe.{decimal}
use certael_agent.Text.{eq_ignore_ascii_case, starts_with, text, Text}
use certael_agent.Environment.{
  is_handle, without_handles, sanitized, sort_by_key, sanitize_environment_entries, before,
  write_handle, read_handle, insert, is_drive_current_directory_key,
}
use certael_agent.Prelude.{
  same, false, [], ◌==◌, ◌&&◌, ◌||◌, ◌∷◌, ◌≡◌, arith, ℕ, inl, not, refuse_if, if_rule, ok-injective,
  Bool-cases, >>=-eq-ok, refl, any, List, true, inr, All-append, is_empty, All, ok,
}

-- An entry by the name of a handle holds the Agent's own.
abbrev pub Own : ℕ → ℕ → Text × Text → Type 0
Own read write e =
    (eq_ignore_ascii_case e.0 read_handle ≡ true → e.1 ≡ decimal read)
    × (eq_ignore_ascii_case e.0 write_handle ≡ true → e.1 ≡ decimal write)

without_handles-Own :
    (read write : ℕ) (es : List (Text × Text)) → All (Own read write) (without_handles es)
unfolding without_handles is_handle
without_handles-Own read write [] = tt
without_handles-Own read write (e ∷ es) =
    if_rule (All (Own read write))
      (eq_ignore_ascii_case e.0 read_handle || eq_ignore_ascii_case e.0 write_handle) _ _
      (λ h. without_handles-Own read write es)
      (λ h. (
        (λ k. absurd (ground (arith, h, k)), λ k. absurd (ground (arith, h, k))),
        without_handles-Own read write es,
      ))

module _ (upper : Text → Text) (P : Text × Text → Type 0) where
  All-insert :
      (e : Text × Text) (xs : List (Text × Text)) → P e → All P xs → All P (insert upper e xs)
  unfolding insert
  All-insert e [] h k = (h, tt)
  All-insert e (x ∷ xs) h k =
      if_rule (All P) (before (upper x.0) (upper e.0)) _ _ (λ _. (k.0, All-insert e xs h k.1))
        (λ _. (h, k))

  All-sort_by_key : (xs : List (Text × Text)) → All P xs → All P (sort_by_key upper xs)
  unfolding sort_by_key
  All-sort_by_key [] h = tt
  All-sort_by_key (x ∷ xs) h = All-insert x (sort_by_key upper xs) h.0 (All-sort_by_key xs h.1)

  All-sanitized : (xs out : List (Text × Text)) → All P xs → sanitized upper xs ≡ ok out → All P out
  unfolding sanitized
  All-sanitized [] out h e = subst (All P) (ok-injective [] out refl refl e) tt
  All-sanitized (x ∷ xs) out h e =
      let drive = is_drive_current_directory_key x.0 in
      let (u, fine, e1) =
        >>=-eq-ok (refuse_if (is_empty x.0 || any (λ c. c == 0) x.0 || any (λ c. c == 0) x.1) _) _
          e in
      elim (Bool-cases (starts_with x.0 (text "=") && not drive)) [
        | inl skip ↦ All-sanitized xs out h.1 (rw skip at e1)
        | inr keep ↦
            let e2 = (rw keep at e1) in
            let (u', plain_key, e3) =
              >>=-eq-ok (refuse_if (not drive && any (λ c. c == b'=') x.0) _) _ e2 in
            let (others, rest, e4) = >>=-eq-ok (sanitized upper xs) _ e3 in
            subst (All P) (ok-injective (x ∷ others) out refl refl e4)
              (h.0, All-sanitized xs others h.1 rest)
      ]

names_differ :
    (eq_ignore_ascii_case read_handle write_handle ≡ false)
    × (eq_ignore_ascii_case write_handle read_handle ≡ false)
unfolding eq_ignore_ascii_case same
names_differ = (refl, refl)

-- Whatever environment the Agent itself was started in, and however names are put into upper case:
-- in an environment that is returned for the game, an entry that has the name of one of the two
-- handles, in whatever case, holds the number of the Agent's own handle.
pub sanitize_environment_entries-Own :
    (upper : Text → Text) (values out : List (Text × Text)) (read write : ℕ)
    → sanitize_environment_entries upper values read write ≡ ok out
    → All (Own read write) out
unfolding sanitize_environment_entries
sanitize_environment_entries-Own upper values out read write h =
    All-sanitized upper (Own read write) _ out
      (All-sort_by_key upper (Own read write) _ (
        All-append (Own read write) (without_handles values)
          ((read_handle, decimal read) ∷ (write_handle, decimal write) ∷ [])
          (without_handles-Own read write values)
          (
            (λ k. refl, λ k. ground (arith, names_differ.0, k)),
            ((λ k. ground (arith, names_differ.1, k), λ k. refl), tt),
          )))
      h
