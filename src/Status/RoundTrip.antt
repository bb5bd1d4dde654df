-- ===== src/Status/RoundTrip.antt =====
-- Where a status file stands, and what comes back of a status that was published.
use certael_agent.Text.{Text, is_ascii_alphabetic, text, is_ascii_alphanumeric, bytes, Bytes}
use certael_agent.Status.{
  id_byte, bad_id, path, join, ends_with_slash, state_root, holding, open_and_write, publish,
  StatusFormat, StatusDir, PublishRun, Publication, StatusFile, read, RuntimeStatus, stop,
}
use certael_agent.Status.Whole.{IsWhole, Kept, open_and_write-IsWhole}
use certael_agent.Prelude.{
  All-map, none, [], ◌++◌, ◌∷◌, ok_or, >>=-eq-ok, all, any, refuse_if, true, is_empty,
  refuse_if-eq-ok, ◌⊎◌, ◌==◌, ◌||◌, ◌≤◌, ◌≡◌, not, false, ltb, inl, inr, arith, ok, length, String,
  err, some, Option, refl, Option-cases, All, if_rule, ℕ, ap, Bool, sym, ◌∙◌, ok-injective,
}

-- What a reader gets in the states of a publication, and at its end.
module _ (x : StatusFormat) where
  pub record IsPublished (dir : StatusDir) (status : RuntimeStatus) (p : Publication) : Type 0 where
    pub always :
        All (λ d. (read x d.status ≡ read x dir.status) ⊎ (read x d.status ≡ ok status)) p.passed
    pub ending :
        ((p.result ≡ ok tt)
          × (read x p.last.status ≡ ok status)
          × (p.last.temporary ≡ none)
          × (f : StatusFile) × (p.last.status ≡ some f)
          × (f.private ≡ true))
        ⊎ ((e : String) × (p.result ≡ err e) × (p.last.status ≡ dir.status))

  stop-IsPublished :
      (dir : StatusDir) (status : RuntimeStatus) (message : String)
      → IsPublished dir status (stop message dir)
  stop-IsPublished dir status message = record { always = tt; ending = inr (message, refl, refl) }

  read-holding :
      (private : Bool) (status : RuntimeStatus) (b : Bytes)
      → x.parse b ≡ some status
      → length b ≤ 16384
      → ((status.format_version ≡ 1) ⊎ (status.format_version ≡ 2))
      → read x (some (holding private b)) ≡ ok status
  unfolding read
  read-holding private status b parsed small version =
      let short : ltb 16384 (length b) ≡ false = ground (arith, small) in
      let known : not (status.format_version == 1 || status.format_version == 2) ≡ false =
        ground (arith, version) in
      rw short (rw parsed (rw known refl))

  IsWhole-IsPublished :
      (dir : StatusDir) (status : RuntimeStatus) (b : Bytes) (p : Publication)
      → read x (some (holding true b)) ≡ ok status
      → IsWhole dir b p
      → IsPublished dir status p
  IsWhole-IsPublished dir status b p reads h = record {
    always =
        All-map (Kept dir b) _ p.passed
          (λ d kept. elim kept [
            | inl e ↦ inl (ap (read x) e)
            | inr e ↦ inr (ap (read x) e ∙ reads)
          ])
          h.whole;
    ending = elim h.ending [
      | inl (fine, last) ↦
          let new_file : p.last.status ≡ some (holding true b) =
            ap (λ (d : StatusDir). d.status) last in
          inl (
            fine,
            ap (read x) new_file ∙ reads,
            ap (λ (d : StatusDir). d.temporary) last,
            holding true b,
            new_file,
            refl,
          )
      | inr failed ↦ inr failed
    ];
  }

  -- A status of version 1 or 2 whose JSON takes at most 16,384 bytes and is read back, whichever
  -- system calls of its publication fail: a reader that looks at any moment gets what it got before
  -- or the new status, never a part of it. Where the publication succeeds a reader gets the new
  -- status, its file is private and the temporary file is gone; where it fails, the file at the
  -- status path is the one before.
  pub read-publish :
      (run : PublishRun) (dir : StatusDir) (status : RuntimeStatus)
      → ((b : Bytes) → x.print status ≡ some b → x.parse b ≡ some status)
      → ((b : Bytes) → x.print status ≡ some b → length b ≤ 16384)
      → ((status.format_version ≡ 1) ⊎ (status.format_version ≡ 2))
      → IsPublished dir status (publish x run dir status)
  unfolding publish
  read-publish run dir status parsed small version =
      let stops = stop-IsPublished dir status in
      if_rule (IsPublished dir status) (not run.has_parent) _ _ (λ _. stops _)
        (λ _.
          if_rule (IsPublished dir status) (not run.created) _ _ (λ _. stops _)
            (λ _. elim (Option-cases (x.print status)) [
              | inl e ↦ rw e (stops _)
              | inr (b, e) ↦ rw e (
                  if_rule (IsPublished dir status) (not run.timed) _ _ (λ _. stops _)
                    (λ _.
                      IsWhole-IsPublished dir status b (open_and_write run dir b)
                        (read-holding true status b (parsed b e) (small b e) version)
                        (open_and_write-IsWhole dir b run)))
            ]))

no_slash : (bs : Bytes) → all id_byte bs ≡ true → any (λ b. b == b'/') bs ≡ false
unfolding any all id_byte is_ascii_alphanumeric is_ascii_alphabetic
no_slash [] h = refl
no_slash (b ∷ bs) h =
    let rest : all id_byte bs ≡ true = ground arith in ground (arith, no_slash bs rest)

some_of_ok_or : {A : Type 0} (o : Option A) (e : String) (a : A) → ok_or o e ≡ ok a → o ≡ some a
some_of_ok_or (some b) e a h = cc
some_of_ok_or none e a h = cc

ends_with_slash-append :
    (s : Text) (c : ℕ) (t : Text) → ends_with_slash (s ++ c ∷ t) ≡ ends_with_slash (c ∷ t)
unfolding ends_with_slash
ends_with_slash-append [] c t = refl
ends_with_slash-append (d ∷ []) c t = refl
ends_with_slash-append (d ∷ e ∷ s) c t = ends_with_slash-append (e ∷ s) c t

is_empty-append : (s : Text) (c : ℕ) (t : Text) → is_empty (s ++ c ∷ t) ≡ false
is_empty-append [] c t = refl
is_empty-append (d ∷ s) c t = refl

-- What is joined to a path whose last part is a name stands behind one slash.
join_name :
    (s name relative : Text)
    → is_empty name ≡ false
    → ends_with_slash name ≡ false
    → join (s ++ name) relative ≡ (s ++ name) ++ text "/" ++ relative
unfolding join
join_name s [] relative h k = cc
join_name s (c ∷ name) relative h k =
    rw (is_empty-append s c name, ends_with_slash-append s c name, k) refl

join_rule :
    (P : Text → Type 0) (dir relative : Text)
    → P (dir ++ relative)
    → P (dir ++ text "/" ++ relative)
    → P (join dir relative)
unfolding join
join_rule P dir relative h k = if_rule P (is_empty dir || ends_with_slash dir) _ _ (λ _. h) (λ _. k)

join-join :
    (dir name relative : Text)
    → is_empty name ≡ false
    → ends_with_slash name ≡ false
    → join (join dir name) relative ≡ join dir name ++ text "/" ++ relative
join-join dir name relative h k =
    join_rule (λ q. join q relative ≡ q ++ text "/" ++ relative) dir name
      (join_name dir name relative h k) (join_name (dir ++ text "/") name relative h k)

-- A status path names a file of the Agent's own directory, below the user's state directory: the name
-- is the registration's id, which is not empty and holds no slash.
pub path-stays :
    (xdg home : Option Text) (id p : Text)
    → path xdg home id ≡ ok p
    → (root : Text) × (state_root xdg home ≡ some root)
      × (p ≡ join root (text "certael-agent") ++ text "/" ++ (id ++ text ".json"))
      × (is_empty id ≡ false)
      × (any (λ b. b == b'/') (bytes id) ≡ false)
unfolding path bad_id ends_with_slash
path-stays xdg home id p h =
    let (u, fine, rest) = >>=-eq-ok (refuse_if (bad_id id) _) _ h in
    let (root, there, joined) = >>=-eq-ok (ok_or (state_root xdg home) _) _ rest in
    let good = refuse_if-eq-ok (bad_id id) _ fine in
    let parts = join-join root (text "certael-agent") (id ++ text ".json") refl refl in
    (
      root,
      some_of_ok_or (state_root xdg home) _ root there,
      ok-injective p _ refl refl (sym joined) ∙ parts,
      ground (arith, good),
      no_slash (bytes id) (ground (arith, good)),
    )
