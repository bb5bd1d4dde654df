-- ===== src/Protocol/KeyRing/Lookup.antt =====
-- A ring that `new` built finds a key exactly when an active entry with its id is listed.
use certael_agent.Prelude.{
  ◌∙◌, Mem-append_right, Mem-append_left, Option-cases, All-Mem, any-false, Memᴰ, false, List, [],
  ◌∷◌, ◌++◌, ◌≡◌, ◌↔◌, refl, ap, sym, arith, same, some, ok, eq_of_same, same_refl, Bool-cases, inl,
  inr, All,
}
use certael_agent.Prelude.Int.{ℤ}
use certael_agent.Text.{Text, Bytes}
use certael_agent.Protocol.KeyRing.{
  VerificationKey, VerificationKeyRing, duplicate_id, new, find, resolve, IsActive,
  inactive-IsActive, IsActive-inactive,
}

find-Mem :
    (id : Text) (ks : List VerificationKey) (k : VerificationKey)
    → find id ks ≡ some k
    → Memᴰ k ks × (k.key_id ≡ id)
unfolding find
find-Mem id [] k h = cc
find-Mem id (c ∷ ks) k h = elim (Bool-cases (same c.key_id id)) [
  | inl e ↦
      let first : c ≡ k = ground arith in
      (Memᴰ.head (sym first), ground (arith, eq_of_same c.key_id id))
  | inr e ↦ let (m, p) = find-Mem id ks k (ground arith) in (Memᴰ.tail m, p)
]

-- An id seen before is not met again.
duplicate_id-seen :
    (c : VerificationKey) (seen ks : List VerificationKey)
    → Memᴰ c seen
    → duplicate_id seen ks ≡ false
    → All (λ k. same c.key_id k.key_id ≡ false) ks
unfolding duplicate_id
duplicate_id-seen c seen [] m h = tt
duplicate_id-seen c seen (k ∷ ks) m h = (
  any-false (λ d. same d.key_id k.key_id) c seen m (ground arith),
  duplicate_id-seen c (seen ++ (k ∷ [])) ks (Mem-append_left (k ∷ []) m) (ground arith),
)

find_complete :
    (seen ks : List VerificationKey) (k : VerificationKey)
    → duplicate_id seen ks ≡ false
    → Memᴰ k ks
    → find k.key_id ks ≡ some k
unfolding find duplicate_id
find_complete seen [] k h m = elim m [ ]
find_complete seen (c ∷ ks) k h (Memᴰ.head e) = ground (arith, same_refl k.key_id)
find_complete seen (c ∷ ks) k h (Memᴰ.tail m) =
    let apart : same c.key_id k.key_id ≡ false =
      All-Mem (λ d. same c.key_id d.key_id ≡ false) k ks m
        (duplicate_id-seen c (seen ++ (c ∷ [])) ks (Mem-append_right seen (Memᴰ.head refl))
          (ground arith)) in
    rw apart (find_complete (seen ++ (c ∷ [])) ks k (ground arith) m)

pub new-ok :
    (keys : List VerificationKey) (ring : VerificationKeyRing)
    → new keys ≡ ok ring
    → (ring.keys ≡ keys) × (duplicate_id [] keys ≡ false)
unfolding new
new-ok keys ring h = ground arith

-- The entry that a successful `resolve` used.
pub resolve-ok :
    (ring : VerificationKeyRing) (id : Text) (now : ℤ) (key : Bytes)
    → resolve ring id now ≡ ok key
    → (k : VerificationKey) × Memᴰ k ring.keys × (k.key_id ≡ id) × IsActive k now × (k.key ≡ key)
unfolding resolve
resolve-ok ring id now key h = elim (Option-cases (find id ring.keys)) [
  | inl e ↦ absurd (ground arith)
  | inr (k, e) ↦
      let (m, p) = find-Mem id ring.keys k e in
      (k, m, p, inactive-IsActive k now (ground arith), ground arith)
]

resolve_complete :
    (ring : VerificationKeyRing) (id : Text) (now : ℤ) (k : VerificationKey)
    → duplicate_id [] ring.keys ≡ false
    → Memᴰ k ring.keys
    → k.key_id ≡ id
    → IsActive k now
    → resolve ring id now ≡ ok k.key
unfolding resolve
resolve_complete ring id now k distinct m e active =
    ground (arith, find_complete [] ring.keys k distinct m, IsActive-inactive k now active)

-- In a ring that `new` built, whatever the order of its keys, `resolve` gives a key for an id at a
-- time exactly when that is the key of a listed entry with that id which is not revoked and whose
-- window, closed at its start and open at its end, holds the time.
pub resolve_iff :
    (keys : List VerificationKey) (ring : VerificationKeyRing) (id : Text) (now : ℤ) (key : Bytes)
    → new keys ≡ ok ring
    → (resolve ring id now ≡ ok key)
      ↔ ((k : VerificationKey) × Memᴰ k keys × (k.key_id ≡ id) × IsActive k now × (k.key ≡ key))
resolve_iff keys ring id now key h =
    let (same_keys, distinct) = new-ok keys ring h in
    (
      λ r. rw (← same_keys) (resolve-ok ring id now key r),
      λ found.
          let (k, m, e, active, result) = found in
          resolve_complete ring id now k (rw same_keys distinct) (rw same_keys m) e active
          ∙ ap ok result,
    )
