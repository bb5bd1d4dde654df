-- ===== src/Updater/Samples.antt =====
-- A format that knows two slots, and install roots with two versions.
use certael_agent.Updater.Operations.{installed_path}
use certael_agent.Prelude.{
  [], if◌then◌else◌, ◌==◌, ◌&&◌, ◌%◌, ◌+◌, ◌∷◌, ◌≡◌, none, sym, eq_of_same, some, zero, refl,
  replicate, Bool-cases, ap, same, arith, Bool, inl, true, false, ℕ, inr, Option, suc,
}
use certael_agent.Text.{Text, Bytes, text}
use certael_agent.Updater.{
  replace_state, plain_file, Root, ActivationState, ActivationSlot, Formats, Entry, FormatsLaws,
}
use certael_agent.Protocol.Samples.{checksum}

abbrev pub hex : Bytes → Text
hex b = replicate 64 (b'0' + checksum b % 10)

abbrev pub slot_of : ℕ → ActivationSlot
slot_of n = record {
  version = n ∷ [];
  relative_path = installed_path (n ∷ []) (text "x");
  sha256 = hex (n ∷ []);
}

abbrev pub one : ActivationSlot
one = slot_of b'1'

abbrev pub two : ActivationSlot
two = slot_of b'2'

abbrev pub slot_is : ActivationSlot → ActivationSlot → Bool
slot_is s t =
    same s.version t.version && same s.relative_path t.relative_path && same s.sha256 t.sha256

eq_of_slot_is : (s t : ActivationSlot) → slot_is s t ≡ true → s ≡ t
eq_of_slot_is s t h =
    let v = eq_of_same s.version t.version (ground arith) in
    let p = eq_of_same s.relative_path t.relative_path (ground arith) in
    let d = eq_of_same s.sha256 t.sha256 (ground arith) in cc

-- A format that knows two slots, and writes one digit for each slot of a state.
abbrev pub digit : Option ActivationSlot → Option ℕ
digit none = some 0
digit (some s) = if slot_is s one then some 1 else if slot_is s two then some 2 else none

abbrev pub slot_at : ℕ → Option (Option ActivationSlot)
slot_at zero = some none
slot_at (suc zero) = some (some one)
slot_at (suc (suc zero)) = some (some two)
slot_at _ = none

slot_at-digit : (o : Option ActivationSlot) (n : ℕ) → digit o ≡ some n → slot_at n ≡ some o
slot_at-digit none n h = let e : 0 ≡ n = cc in rw (← e)
slot_at-digit (some s) n h = elim (Bool-cases (slot_is s one)) [
  | inl is_it ↦ let e : 1 ≡ n = ground arith in rw (← e) (rw (eq_of_slot_is s one is_it))
  | inr apart ↦ elim (Bool-cases (slot_is s two)) [
    | inl is_it ↦ let e : 2 ≡ n = ground arith in rw (← e) (rw (eq_of_slot_is s two is_it))
    | inr neither ↦ absurd (ground arith)
  ]
]

abbrev pub digits : Bool → Option ℕ → Option ℕ → Option ℕ → Option Bytes
digits true (some a) (some b) (some c) = some (a ∷ b ∷ c ∷ [])
digits _ _ _ _ = none

abbrev pub state_of :
    Option (Option ActivationSlot)
    → Option (Option ActivationSlot)
    → Option (Option ActivationSlot)
    → Option ActivationState
state_of (some a) (some b) (some c) =
    some (record { format_version = 1; active = a; previous = b; pending = c })
state_of _ _ _ = none

abbrev pub parse_digits : Bytes → Option ActivationState
parse_digits (a ∷ b ∷ c ∷ []) = state_of (slot_at a) (slot_at b) (slot_at c)
parse_digits _ = none

abbrev pub formats : Formats
formats = record {
  parse = parse_digits;
  print = λ s. digits (s.format_version == 1) (digit s.active) (digit s.previous) (digit s.pending);
  hex_sha256 = hex;
}

parse-digits :
    (s : ActivationState) (f : Bool) (i j k : Option ℕ) (b : Bytes)
    → (s.format_version == 1) ≡ f
    → digit s.active ≡ i
    → digit s.previous ≡ j
    → digit s.pending ≡ k
    → digits f i j k ≡ some b
    → parse_digits b ≡ some s
parse-digits s true (some i) (some j) (some k) b f p q r h =
    let e : i ∷ j ∷ k ∷ [] ≡ b = cc in
    let one : s.format_version ≡ 1 = ground (arith, f) in
    rw (← e) (
      rw (slot_at-digit s.active i p, slot_at-digit s.previous j q, slot_at-digit s.pending k r)
        (ap (λ n. some (record s { format_version = n })) (sym one)))
parse-digits s false i j k b f p q r h = cc
parse-digits s true none j k b f p q r h = cc
parse-digits s true (some i) none k b f p q r h = cc
parse-digits s true (some i) (some j) none b f p q r h = cc

pub formats_laws : FormatsLaws formats
formats_laws = record {
  parse-print = λ s b h.
      parse-digits s (s.format_version == 1) (digit s.active) (digit s.previous) (digit s.pending) b
        refl refl refl refl h;
}

-- The root that holds nothing.
abbrev pub empty_root : Root
empty_root = record { path = text "/r"; usable = true; entry = λ p. none; activation = none }

abbrev pub version_file : ActivationSlot → Bytes → Entry
version_file slot b = plain_file empty_root slot.relative_path b

-- The files of the two versions, and a state file with these digits.
abbrev pub both : Text → Option Entry
both p =
    if same p one.relative_path
    then some (version_file one (b'1' ∷ []))
    else if same p two.relative_path
    then some (version_file two (b'2' ∷ []))
    else none

abbrev pub only_one : Text → Option Entry
only_one p = if same p one.relative_path then some (version_file one (b'1' ∷ [])) else none

abbrev pub root_with : (Text → Option Entry) → Bytes → Root
root_with there b = replace_state (record empty_root { entry = there }) b

abbrev pub state_with :
    Option ActivationSlot → Option ActivationSlot → Option ActivationSlot → ActivationState
state_with a b c = record { format_version = 1; active = a; previous = b; pending = c }

abbrev pub waiting : Root
waiting = root_with both (1 ∷ 0 ∷ 2 ∷ [])

abbrev pub updated : Root
updated = root_with both (2 ∷ 1 ∷ 0 ∷ [])
