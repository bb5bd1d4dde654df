-- ===== src/Updater/State.antt =====
-- What a written activation state reads back as, and the two ways a transition can end.
use certael_agent.Text.{Bytes}
use certael_agent.Updater.Operations.{in_root, transition}
use certael_agent.Prelude.{
  if◌then◌else◌, Bool, refl, false, true, Bool-cases, ◌∙◌, ap, sym, ◌⊎◌, ◌>>=◌, ◌<◌, ◌≤◌, ◌≡◌,
  Result, err, inl, some, inr, >>=-eq-ok, ok, arith, ok_or-eq-ok, Result-cases, length,
}
use certael_agent.Updater.{
  FormatsLaws, ActivationState, encode_state, read_state_file, Formats, not_synced,
  write_activation_state, installation, read_activation_state_canonical, UpdateError, Root,
  validate_state, written, replace_state, not_replaced, max_activation_state_bytes, Outcome,
}

if_true : {A : Type 0} (b : Bool) (p q : A) → b ≡ true → (if b then p else q) ≡ p
if_true true p q h = refl
if_true false p q h = cc

if_false : {A : Type 0} (b : Bool) (p q : A) → b ≡ false → (if b then p else q) ≡ q
if_false true p q h = cc
if_false false p q h = refl

-- What holds of both branches holds of the whole.
pub if_both :
    {A : Type 0} (P : A → Type 0) (b : Bool) (p q : A) → P p → P q → P (if b then p else q)
if_both P true p q hp hq = hp
if_both P false p q hp hq = hq

-- An error is no success.
pub refused :
    {root root' : Root} {e : UpdateError} {s : ActivationState}
    → ¬ (Path (Result UpdateError ActivationState × Root) (err e, root) (ok s, root'))
refused h = cc

module _ (x : Formats) where
  pub encode_state-ok :
      (s : ActivationState) (b : Bytes)
      → encode_state x s ≡ ok b
      → (validate_state s ≡ ok tt)
        × (x.print s ≡ some b)
        × (0 < length b)
        × (length b ≤ max_activation_state_bytes)
  unfolding encode_state
  encode_state-ok s b h =
      let (u, valid, rest) = >>=-eq-ok (validate_state s) _ h in
      let (c, printed, fits) = ok_or-eq-ok (x.print s) installation _ rest in
      (valid, ground arith, ground arith, ground arith)

  -- Reading looks at the state file alone.
  pub read_same_file :
      (root root' : Root)
      → root.activation ≡ root'.activation
      → read_activation_state_canonical x root ≡ read_activation_state_canonical x root'
  read_same_file root root' h =
      ap (λ a. read_activation_state_canonical x (record root { activation = a })) h

  pub read-replace_state :
      FormatsLaws x
      → (root : Root) (s : ActivationState) (b : Bytes) → encode_state x s ≡ ok b
      → read_activation_state_canonical x (replace_state root b) ≡ ok s
  unfolding read_state_file
  read-replace_state laws root s b h =
      let (valid, printed, some_bytes, few) = encode_state-ok s b h in
      ground (arith, laws.parse-print s b printed, valid)

  write_encoded :
      (root : Root) (outcome : Outcome) (s : ActivationState) (b : Bytes)
      → encode_state x s ≡ ok b
      → (write_activation_state x root outcome s ≡ (err installation, root))
        ⊎ ((write_activation_state x root outcome s ≡ (err installation, replace_state root b))
            ⊎ (write_activation_state x root outcome s ≡ (ok tt, replace_state root b)))
  unfolding write_activation_state
  write_encoded root not_replaced s b h = inl (rw (h, write_activation_state))
  write_encoded root not_synced s b h = inr (inl (rw (h, write_activation_state)))
  write_encoded root written s b h = inr (inr (rw (h, write_activation_state)))

  write_refused :
      (root : Root) (outcome : Outcome) (s : ActivationState) (e : UpdateError)
      → encode_state x s ≡ err e
      → write_activation_state x root outcome s ≡ (err e, root)
  unfolding write_activation_state
  write_refused root outcome s e h = rw (h, write_activation_state)

  transition_written :
      (root : Root) (outcome : Outcome)
      (next : ActivationState → Result UpdateError ActivationState) (s : ActivationState)
      (r : Result UpdateError (Unit {0})) (root' : Root)
      → (read_activation_state_canonical x root >>= next) ≡ ok s
      → write_activation_state x root outcome s ≡ (r, root')
      → transition x root outcome next ≡ ((r >>= λ _. ok s), root')
  unfolding transition
  transition_written root outcome next s r root' h w = rw (h, w, transition)

  -- A transition fails and leaves the install root as it was; or a next state was computed and
  -- encoded, it stands in the file, and the transition returns it or reports that it is not synced.
  pub transition-cases :
      (root : Root) (outcome : Outcome)
      (next : ActivationState → Result UpdateError ActivationState)
      → ((e : UpdateError) × (transition x root outcome next ≡ (err e, root)))
        ⊎ ((s : ActivationState) × (b : Bytes) × ((read_activation_state_canonical x root >>= next)
              ≡ ok s)
            × (encode_state x s ≡ ok b)
            × ((transition x root outcome next ≡ (err installation, replace_state root b))
                ⊎ (transition x root outcome next ≡ (ok s, replace_state root b))))
  unfolding transition
  transition-cases root outcome next =
      elim (Result-cases (read_activation_state_canonical x root >>= next)) [
        | inr (e, p) ↦ inl (e, rw (p, transition))
        | inl (s, p) ↦
            let carry = transition_written root outcome next s in
            elim (Result-cases (encode_state x s)) [
              | inr (e, q) ↦ inl (e, carry (err e) root p (write_refused root outcome s e q))
              | inl (b, q) ↦ elim (write_encoded root outcome s b q) [
                | inl w ↦ inl (installation, carry (err installation) root p w)
                | inr (inl w) ↦
                    inr (s, b, p, q, inl (carry (err installation) (replace_state root b) p w))
                | inr (inr w) ↦ inr (s, b, p, q, inr (carry (ok tt) (replace_state root b) p w))
              ]
            ]
      ]

  -- A transition that returned a state computed it from what was read, and wrote it.
  pub transition-ok :
      (root root' : Root) (outcome : Outcome)
      (next : ActivationState → Result UpdateError ActivationState) (s : ActivationState)
      → transition x root outcome next ≡ (ok s, root')
      → (old : ActivationState) × (b : Bytes) × (read_activation_state_canonical x root ≡ ok old)
        × (next old ≡ ok s)
        × (encode_state x s ≡ ok b)
        × (root' ≡ replace_state root b)
  transition-ok root root' outcome next s h = elim (transition-cases root outcome next) [
    | inl (e, p) ↦ cc
    | inr (t, b, p, q, inl r) ↦ cc
    | inr (t, b, p, q, inr r) ↦
        let same_state : t ≡ s = cc in
        let (old, read, chosen) =
          >>=-eq-ok (read_activation_state_canonical x root) next (p ∙ ap ok same_state) in
        (old, b, read, chosen, ap (encode_state x) (sym same_state) ∙ q, cc)
  ]

  -- A state that can be computed and encoded, and a write that succeeds.
  pub transition_done :
      (root : Root) (next : ActivationState → Result UpdateError ActivationState)
      (old s : ActivationState) (b : Bytes)
      → read_activation_state_canonical x root ≡ ok old
      → next old ≡ ok s
      → encode_state x s ≡ ok b
      → transition x root written next ≡ (ok s, replace_state root b)
  unfolding transition write_activation_state
  transition_done root next old s b read chosen encoded =
      rw (read, transition) (rw (chosen, transition) (rw (encoded, write_activation_state)))

-- The test in front of every operation.
pub in_root-ok :
    (root root' : Root) (later : Result UpdateError ActivationState × Root) (s : ActivationState)
    → in_root root later ≡ (ok s, root')
    → (root.usable ≡ true) × (later ≡ (ok s, root'))
in_root-ok root root' later s h = elim (Bool-cases root.usable) [
  | inl on ↦ (on, sym (if_true root.usable later _ on) ∙ h)
  | inr off ↦ let e = sym (if_false root.usable later _ off) ∙ h in absurd (refused e)
]

pub in_root_usable :
    (root : Root) (later : Result UpdateError ActivationState × Root)
    → root.usable ≡ true
    → in_root root later ≡ later
in_root_usable root later h = if_true root.usable later _ h
