-- ===== src/Protocol/Register/Files.antt =====
-- What the registered files of a valid game registration are.
use certael_agent.Protocol.Errors.{invalid_field}
use certael_agent.Protocol.Validate.Files.{AllDistinct}
use certael_agent.Protocol.Registration.{RegisteredGameFileV1, GameRegistrationClaimsV1}
use certael_agent.Protocol.Fields.{safe_relative_path}
use certael_agent.Protocol.Compatibility.Evaluate.{fresh}
use certael_agent.Prelude.Int.{ℤ}
use certael_agent.Text.{Text}
use certael_agent.Protocol.Register.{
  recovery_malformed, registration_malformed, normal_path, validate_game_registration,
  register_files,
}
use certael_agent.Protocol.Validate.{set_contains}
use certael_agent.Prelude.{
  ◌>>=◌, is_empty, refuse_if-eq-ok, two_checks-eq-ok, [], ◌⊎◌, ◌≤◌, ◌≢◌, ◌∷◌, ◌≡◌, length,
  Bool-cases, All, true, refl, inr, refuse_if, same, Memᴰ, false, inl, ltb, List, eq_of_same,
  same_of_eq, sym, >>=-eq-ok, ok, any, arith,
}

-- The paths as the set holds them.
abbrev pub normal_paths : List RegisteredGameFileV1 → List Text
normal_paths [] = []
normal_paths (f ∷ fs) = normal_path f.relative_path ∷ normal_paths fs

pub record IsRegistered (f : RegisteredGameFileV1) : Type 0 where
  pub safe : safe_relative_path f.relative_path ≡ true
  pub digest : length f.sha256 ≡ 32

contains-Mem : (v : Text) (set : List Text) → set_contains v set ≡ true → Memᴰ v set
unfolding set_contains any
contains-Mem v [] h = cc
contains-Mem v (w ∷ set) h = elim (Bool-cases (same w v)) [
  | inl e ↦ Memᴰ.head (sym (eq_of_same w v e))
  | inr e ↦ Memᴰ.tail (contains-Mem v set (ground arith))
]

Mem-contains : (v : Text) (set : List Text) → Memᴰ v set → set_contains v set ≡ true
unfolding set_contains any
Mem-contains v [] m = elim m [ ]
Mem-contains v (w ∷ set) (Memᴰ.head e) = rw (same_of_eq w v (sym e))
Mem-contains v (w ∷ set) (Memᴰ.tail m) = ground (arith, Mem-contains v set m)

-- One round of the loop that went on.
register_files_round :
    (paths : List Text) (f : RegisteredGameFileV1) (fs : List RegisteredGameFileV1)
    (result : List Text)
    → register_files paths (f ∷ fs) ≡ ok result
    → IsRegistered f
      × (set_contains (normal_path f.relative_path) paths ≡ false)
      × (register_files (normal_path f.relative_path ∷ paths) fs ≡ ok result)
unfolding register_files
register_files_round paths f fs result h =
    (record { safe = ground arith; digest = ground arith }, ground arith, ground arith)

register_files_seen :
    (p : Text) (paths : List Text) (fs : List RegisteredGameFileV1) (result : List Text)
    → Memᴰ p paths
    → register_files paths fs ≡ ok result
    → All (λ q. p ≢ q) (normal_paths fs)
register_files_seen p paths [] result m h = tt
register_files_seen p paths (f ∷ fs) result m h =
    let path = normal_path f.relative_path in
    let (good, fresh, rest) = register_files_round paths f fs result h in
    (
      λ e. absurd (ground (arith, Mem-contains path paths (rw e at m), fresh)),
      register_files_seen p (path ∷ paths) fs result (Memᴰ.tail m) rest,
    )

register_files-ok :
    (paths : List Text) (fs : List RegisteredGameFileV1) (result : List Text)
    → register_files paths fs ≡ ok result
    → All IsRegistered fs
      × AllDistinct (normal_paths fs)
      × ((p : Text) → Memᴰ p result → Memᴰ p paths ⊎ Memᴰ p (normal_paths fs))
unfolding register_files
register_files-ok paths [] result h =
    (tt, tt, λ p m. let e : paths ≡ result = cc in inl (rw (← e) at m))
register_files-ok paths (f ∷ fs) result h =
    let path = normal_path f.relative_path in
    let (good, fresh, rest) = register_files_round paths f fs result h in
    let (goods, distinct, listed) = register_files-ok (path ∷ paths) fs result rest in
    (
      (good, goods),
      (register_files_seen path (path ∷ paths) fs result (Memᴰ.head refl) rest, distinct),
      λ p m. elim (listed p m) [
        | inl (Memᴰ.head e) ↦ inr (Memᴰ.head e)
        | inl (Memᴰ.tail k) ↦ inl k
        | inr k ↦ inr (Memᴰ.tail k)
      ],
    )

empty_text : (s : Text) → is_empty s ≡ true → s ≡ []
empty_text [] h = refl
empty_text (a ∷ s) h = cc

repair_contained :
    (c : GameRegistrationClaimsV1) (paths : List Text)
    → recovery_malformed c paths ≡ false
    → (c.repair_executable_relative_path ≡ [])
      ⊎ ((safe_relative_path c.repair_executable_relative_path ≡ true)
          × (set_contains (normal_path c.repair_executable_relative_path) paths ≡ true))
unfolding recovery_malformed
repair_contained c paths h = elim (Bool-cases (is_empty c.repair_executable_relative_path)) [
  | inl e ↦ inl (empty_text c.repair_executable_relative_path e)
  | inr e ↦ inr (ground (arith, e, h), ground (arith, e, h))
]

-- A valid game registration lists at most 4096 files, each with a path that stays below its
-- directory and a digest of 32 bytes, no two of whose paths are the same when case and the kind of
-- separator are ignored; and the executable that repairs the game is none, or it is such a path and
-- one of those listed.
pub validate_game_registration-IsRegistered :
    (c : GameRegistrationClaimsV1) (now : ℤ)
    → validate_game_registration c now ≡ ok tt
    → (length c.registered_files ≤ 4096)
      × All IsRegistered c.registered_files
      × AllDistinct (normal_paths c.registered_files)
      × ((c.repair_executable_relative_path ≡ [])
          ⊎ ((safe_relative_path c.repair_executable_relative_path ≡ true)
              × Memᴰ
                  (normal_path c.repair_executable_relative_path)
                  (normal_paths c.registered_files)))
unfolding validate_game_registration
validate_game_registration-IsRegistered c now h =
    let (formed, few, rest) =
      two_checks-eq-ok (registration_malformed c now) (ltb 4096 (length c.registered_files))
        (invalid_field "game_registration") (invalid_field "registered_files")
        (register_files [] c.registered_files >>= λ paths.
          refuse_if (recovery_malformed c paths) (invalid_field "launch_recovery"))
        h in
    let (paths, listed, repaired) =
      >>=-eq-ok (register_files [] c.registered_files)
        (λ paths. refuse_if (recovery_malformed c paths) (invalid_field "launch_recovery")) rest in
    let (good, distinct, among) = register_files-ok [] c.registered_files paths listed in
    let path = normal_path c.repair_executable_relative_path in
    (
      ground (arith, few),
      good,
      distinct,
      elim (repair_contained c paths (refuse_if-eq-ok (recovery_malformed c paths) _ repaired)) [
        | inl e ↦ inl e
        | inr (safe, inside) ↦ inr (
          safe,
          elim (among path (contains-Mem path paths inside)) [ inl m ↦ elim m [ ] | inr m ↦ m ],
        )
      ],
    )
