-- ===== src/Trust/Loaded.antt =====
-- What a trust store that was loaded holds, and which keys it gives.
use mathlib.Core.Path.{subst}
use certael_agent.Files.{FileNode}
use certael_agent.Text.{Text, Bytes, len}
use certael_agent.Trust.{read_key, TrustKeyFile, read_keys, load, TrustTools}
use certael_agent.Protocol.KeyRing.{
  new, VerificationKeyRing, unusable, VerificationKey, duplicate_id, resolve, IsActive,
}
use certael_agent.Protocol.KeyRing.Lookup.{resolve_iff}
use certael_agent.Prelude.Int.{ℤ, ◌≤ℤ◌, ◌<ℤ◌}
use certael_agent.Prelude.{
  two_checks-eq-ok, ap, sym, [], ◌==◌, ◌||◌, ◌≤◌, ◌∷◌, ◌≡◌, ◌↔◌, ◌∙◌, List, any, any-false,
  ok-injective, ltb, map_err-eq-ok, false, arith, Option, true, length, refl, ok_or-eq-ok,
  >>=-eq-ok, is_empty, not, All, ok, some, Memᴰ, All-of-Mem,
}

-- A regular file, no link, of at most 65,536 bytes, that only its owner can write.
pub record IsOwn (f : FileNode) : Type 0 where
  pub regular : f.is_file ≡ true
  pub no_link : f.is_link ≡ false
  pub small : f.size ≤ 65536
  pub own : f.shared ≡ false

-- The entry is not revoked and `now` lies in its window.
pub record IsLive (v : TrustKeyFile) (now : ℤ) : Type 0 where
  pub trusted : v.revoked ≡ false
  pub begun : v.not_before_unix ≤ℤ now
  pub lasting : now <ℤ v.not_after_unix

module _ (x : TrustTools) where
  -- An entry that can be used: an id of at most 128 bytes, a window that is not empty, and the
  -- hexadecimal form of a key of the curve, of 32 bytes.
  pub record IsUsable (v : TrustKeyFile) : Type 0 where
    pub named : is_empty v.key_id ≡ false
    pub short : len v.key_id ≤ 128
    pub window : v.not_before_unix <ℤ v.not_after_unix
    pub raw : Bytes
    pub decoded : x.hex.decode v.public_key_hex ≡ some raw
    pub sized : length raw ≡ 32
    pub on_curve : x.is_key raw ≡ true

  -- The key of the ring that stands for an entry.
  record Reads (v : TrustKeyFile) (k : VerificationKey) : Type 0 where
    decoded : x.hex.decode v.public_key_hex ≡ some k.key
    sized : length k.key ≡ 32
    on_curve : x.is_key k.key ≡ true
    same_id : k.key_id ≡ v.key_id
    same_start : k.not_before_unix ≡ v.not_before_unix
    same_end : k.not_after_unix ≡ v.not_after_unix
    same_trust : k.revoked ≡ v.revoked

  read_key-Reads : (v : TrustKeyFile) (k : VerificationKey) → read_key x v ≡ ok k → Reads v k
  unfolding read_key
  read_key-Reads v k h =
      let (raw, decoded, h1) = ok_or-eq-ok (x.hex.decode v.public_key_hex) _ _ h in
      let (sized, good, h2) =
        two_checks-eq-ok (not (length raw == 32)) (not (x.is_key raw)) _ _ _ h1 in
      subst (Reads v) (ok-injective _ k refl refl h2) (record {
        decoded = decoded;
        sized = ground (arith, sized);
        on_curve = ground (arith, good);
        same_id = refl;
        same_start = refl;
        same_end = refl;
        same_trust = refl;
      })

  -- Each key of the ring stands for an entry.
  entry_of :
      (vs : List TrustKeyFile) (ks : List VerificationKey) (k : VerificationKey)
      → read_keys x vs ≡ ok ks
      → Memᴰ k ks
      → (v : TrustKeyFile) × Memᴰ v vs × Reads v k
  unfolding read_keys
  entry_of [] ks k h m = elim (subst (λ ks. Memᴰ k ks) (sym (ok-injective [] ks refl refl h)) m) [ ]
  entry_of (v ∷ vs) ks k h m =
      let (k', one, h1) = >>=-eq-ok (read_key x v) _ h in
      let (ks', rest, h2) = >>=-eq-ok (read_keys x vs) _ h1 in
      elim (subst (λ ks. Memᴰ k ks) (sym (ok-injective (k' ∷ ks') ks refl refl h2)) m) [
        | Memᴰ.head e ↦ (v, Memᴰ.head refl, read_key-Reads v k (one ∙ ap ok (sym e)))
        | Memᴰ.tail m' ↦
            let (v', there, reads) = entry_of vs ks' k rest m' in (v', Memᴰ.tail there, reads)
      ]

  -- Each entry has its key in the ring.
  key_of :
      (vs : List TrustKeyFile) (ks : List VerificationKey) (v : TrustKeyFile)
      → read_keys x vs ≡ ok ks
      → Memᴰ v vs
      → (k : VerificationKey) × Memᴰ k ks × Reads v k
  unfolding read_keys
  key_of [] ks v h m = elim m [ ]
  key_of (w ∷ vs) ks v h m =
      let (k', one, h1) = >>=-eq-ok (read_key x w) _ h in
      let (ks', rest, h2) = >>=-eq-ok (read_keys x vs) _ h1 in
      let whole = ok-injective (k' ∷ ks') ks refl refl h2 in
      elim m [
        | Memᴰ.head e ↦ (
          k',
          subst (λ ks. Memᴰ k' ks) whole (Memᴰ.head refl),
          subst (λ w. Reads w k') (sym e) (read_key-Reads w k' one),
        )
        | Memᴰ.tail m' ↦
            let (k, there, reads) = key_of vs ks' v rest m' in
            (k, subst (λ ks. Memᴰ k ks) whole (Memᴰ.tail there), reads)
      ]

  Reads-IsUsable :
      (v : TrustKeyFile) (k : VerificationKey) → Reads v k → unusable k ≡ false → IsUsable v
  unfolding unusable
  Reads-IsUsable v k r h = record {
    named = rw (← r.same_id) (ground (arith, h));
    short = rw (← r.same_id) (ground (arith, h));
    window = rw (← r.same_start, ← r.same_end) (ground (arith, h));
    raw = k.key;
    decoded = r.decoded;
    sized = r.sized;
    on_curve = r.on_curve;
  }

  IsActive-IsLive :
      (v : TrustKeyFile) (k : VerificationKey) (now : ℤ) → Reads v k → IsActive k now → IsLive v now
  IsActive-IsLive v k now r h = record {
    trusted = rw (← r.same_trust) h.trusted;
    begun = rw (← r.same_start) h.begun;
    lasting = rw (← r.same_end) h.lasting;
  }

  IsLive-IsActive :
      (v : TrustKeyFile) (k : VerificationKey) (now : ℤ) → Reads v k → IsLive v now → IsActive k now
  IsLive-IsActive v k now r h = record {
    trusted = rw r.same_trust h.trusted;
    begun = rw r.same_start h.begun;
    lasting = rw r.same_end h.lasting;
  }

  -- An entry of the file that gives this key for this id at this time.
  abbrev pub Gives : List TrustKeyFile → Text → ℤ → Bytes → Type 0
  Gives values id now key =
      (v : TrustKeyFile) × Memᴰ v values
      × (v.key_id ≡ id)
      × IsLive v now
      × (x.hex.decode v.public_key_hex ≡ some key)

  resolve-Gives :
      (values : List TrustKeyFile) (keys : List VerificationKey) (ring : VerificationKeyRing)
      (id : Text) (now : ℤ) (key : Bytes)
      → read_keys x values ≡ ok keys
      → new keys ≡ ok ring
      → (resolve ring id now ≡ ok key) ↔ Gives values id now key
  resolve-Gives values keys ring id now key loaded made =
      let (there, back) = resolve_iff keys ring id now key made in
      (
        λ h.
            let (k, m, e, active, is_key) = there h in
            let (v, m', r) = entry_of values keys k loaded m in
            (
              v,
              m',
              sym r.same_id ∙ e,
              IsActive-IsLive v k now r active,
              r.decoded ∙ ap some is_key,
            ),
        λ found.
            let (v, m, e, live, decoded) = found in
            let (k, m', r) = key_of values keys v loaded m in
            let same_key : some k.key ≡ some key = sym r.decoded ∙ decoded in
            back (k, m', r.same_id ∙ e, IsLive-IsActive v k now r live, cc),
      )

  -- A trust store that is loaded is a regular file, no link, of at most 65,536 bytes that neither
  -- its group nor others can write, and every entry in it can be used: it has an id of at most 128
  -- bytes, a window that is not empty, and the hexadecimal form of a key of the curve. The ring
  -- that is returned then gives a key for an id at a time exactly when an entry with that id, which
  -- is not revoked and whose window holds the time, is the hexadecimal form of that key.
  pub load-IsTrusted :
      (file : Option FileNode) (ring : VerificationKeyRing) (id : Text) (now : ℤ) (key : Bytes)
      → load x file ≡ ok ring
      → (f : FileNode) × (file ≡ some f)
        × IsOwn f
        × (b : Bytes) × (f.content ≡ some b)
        × (values : List TrustKeyFile) × (x.parse b ≡ some values)
        × All IsUsable values
        × ((resolve ring id now ≡ ok key) ↔ Gives values id now key)
  unfolding load new
  load-IsTrusted file ring id now key h =
      let (f, there, h1) = ok_or-eq-ok file _ _ h in
      let (shape, own, h3) =
        two_checks-eq-ok (not f.is_file || f.is_link || ltb 65536 f.size) f.shared _ _ _ h1 in
      let (b, held, h4) = ok_or-eq-ok f.content _ _ h3 in
      let (values, parsed, h5) = ok_or-eq-ok (x.parse b) _ _ h4 in
      let (keys, loaded, h6) = >>=-eq-ok (read_keys x values) _ h5 in
      let made = map_err-eq-ok (new keys) _ h6 in
      let (usable, distinct, _) =
        two_checks-eq-ok (is_empty keys || any unusable keys) (duplicate_id [] keys) _ _ _ made in
      (
        f,
        there,
        record {
          regular = ground (arith, shape);
          no_link = ground (arith, shape);
          small = ground (arith, shape);
          own = own;
        },
        b,
        held,
        values,
        parsed,
        All-of-Mem IsUsable values (λ v m.
            let (k, m', r) = key_of values keys v loaded m in
            Reads-IsUsable v k r (any-false unusable k keys m' (ground (arith, usable)))),
        resolve-Gives values keys ring id now key loaded made,
      )
