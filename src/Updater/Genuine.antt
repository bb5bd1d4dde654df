-- ===== src/Updater/Genuine.antt =====
-- What a slot that `verify_slot` accepts leads to.
use certael_agent.Text.{Text, starts_with, Bytes, text}
use certael_agent.Text.Split.{split}
use certael_agent.Prelude.{
  refuse_if, same, not, refuse_if-eq-ok, ◌∙◌, ◌≡◌, ◌≢◌, ◌==◌, All, not_any-All, true, ok_or-eq-ok,
  ok, arith, >>=-eq-ok, some, eq_of_same,
}
use certael_agent.Updater.{
  verification, Entry, ActivationSlot, version_prefix, all_normal, verify_slot, hash_canonical,
  validate_slot, Root, invalid_activation_state, Formats,
}

validate_slot-ok :
    (slot : ActivationSlot)
    → validate_slot slot ≡ ok tt
    → (starts_with slot.relative_path (version_prefix slot.version) ≡ true)
      × (all_normal slot.relative_path ≡ true)
unfolding validate_slot
validate_slot-ok slot h =
    let clean = refuse_if-eq-ok _ invalid_activation_state h in
    (ground (arith, clean), ground (arith, clean))

all_normal-no_way_up :
    (path : Text) → all_normal path ≡ true → All (λ p. p ≢ text "..") (split (λ c. c == b'/') path)
unfolding all_normal
all_normal-no_way_up path h =
    not_any-All (text "..") (split (λ c. c == b'/') path) (ground (arith, h))

module _ (x : Formats) where
  -- What stands at a verified slot: a regular file below the install root, with the slot's digest.
  -- The slot's path begins with the directory of the slot's version, and none of its parts is `..`.
  pub record IsGenuine (root : Root) (slot : ActivationSlot) : Type 0 where
    pub file : Entry
    pub found : root.entry slot.relative_path ≡ some file
    pub inside : file.inside ≡ true
    pub regular : file.is_file ≡ true
    pub held : Bytes
    pub readable : file.content ≡ some held
    pub digest : x.hex_sha256 held ≡ slot.sha256
    pub own_version : starts_with slot.relative_path (version_prefix slot.version) ≡ true
    pub relative : all_normal slot.relative_path ≡ true
    pub no_way_up : All (λ p. p ≢ text "..") (split (λ c. c == b'/') slot.relative_path)

  hash_canonical-ok :
      (e : Entry) (digest : Text)
      → hash_canonical x e ≡ ok digest
      → (e.is_file ≡ true) × (b : Bytes) × (e.content ≡ some b) × (x.hex_sha256 b ≡ digest)
  unfolding hash_canonical
  hash_canonical-ok e digest h =
      let (u, regular, rest) = >>=-eq-ok (refuse_if (not e.is_file) verification) _ h in
      let (b, held, last) = ok_or-eq-ok e.content verification (λ b. ok (x.hex_sha256 b)) rest in
      (ground (arith, refuse_if-eq-ok (not e.is_file) verification regular), b, held, cc)

  pub verify_slot-IsGenuine :
      (root : Root) (slot : ActivationSlot) → verify_slot x root slot ≡ ok tt → IsGenuine root slot
  unfolding verify_slot
  verify_slot-IsGenuine root slot h =
      let (u, valid, rest) = >>=-eq-ok (validate_slot slot) _ h in
      let (e, found, rest1) = ok_or-eq-ok (root.entry slot.relative_path) verification _ rest in
      let (u1, inside, rest2) = >>=-eq-ok (refuse_if (not e.inside) verification) _ rest1 in
      let (digest, hashed, last) = >>=-eq-ok (hash_canonical x e) _ rest2 in
      let (regular, b, held, is_digest) = hash_canonical-ok e digest hashed in
      let (own_version, relative) = validate_slot-ok slot valid in
      record {
        file = e;
        found = found;
        inside = ground (arith, refuse_if-eq-ok (not e.inside) verification inside);
        regular = regular;
        held = b;
        readable = held;
        digest =
            is_digest
            ∙ eq_of_same digest slot.sha256
                (ground (arith, refuse_if-eq-ok (not (same digest slot.sha256)) verification last));
        own_version = own_version;
        relative = relative;
        no_way_up = all_normal-no_way_up slot.relative_path relative;
      }
