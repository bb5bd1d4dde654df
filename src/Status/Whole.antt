-- ===== src/Status/Whole.antt =====
-- The states that a publication passes from the opening of its temporary file on.
use certael_agent.Text.{Bytes}
use certael_agent.Status.{
  holding, through, discard, write_and_rename, open_and_write, StatusDir, PublishRun, Publication,
  stop, is_there, staged,
}
use certael_agent.Prelude.{
  none, [], ◌∷◌, true, ◌⊎◌, ◌||◌, ◌&&◌, ◌≡◌, not, inl, inr, ok, String, err, some, refl, All,
  All-append, if_rule, map, take, List, ℕ, map-All,
}

module _ (dir : StatusDir) (b : Bytes) where
  -- The status is the one before, or the new one as a whole in a private file.
  abbrev pub Kept : StatusDir → Type 0
  Kept d = (d.status ≡ dir.status) ⊎ (d.status ≡ some (holding true b))

  -- Every state is one of these, and the last goes with the result.
  pub record IsWhole (p : Publication) : Type 0 where
    pub whole : All Kept p.passed
    pub ending :
        ((p.result ≡ ok tt)
          × (p.last ≡ record { status = some (holding true b); temporary = none }))
        ⊎ ((e : String) × (p.result ≡ err e) × (p.last.status ≡ dir.status))

  stop-IsWhole :
      (message : String) (d : StatusDir) → d.status ≡ dir.status → IsWhole (stop message d)
  stop-IsWhole message d h = record { whole = tt; ending = inr (message, refl, h) }

  through-IsWhole :
      (ds : List StatusDir) (p : Publication) → All Kept ds → IsWhole p → IsWhole (through ds p)
  through-IsWhole ds p h k = record {
    whole = All-append Kept ds p.passed h k.whole;
    ending = k.ending;
  }

  discard-IsWhole :
      (run : PublishRun) (d : StatusDir) → d.status ≡ dir.status → IsWhole (discard run d)
  unfolding discard
  discard-IsWhole run d h = record {
    whole = (inl h, tt);
    ending = inr (
      "cannot publish Agent status",
      refl,
      if_rule (λ (q : StatusDir). q.status ≡ dir.status) run.removed _ _ (λ _. h) (λ _. h),
    );
  }

  progress-Kept : (ns : List ℕ) → All Kept (map (λ n. staged dir (holding true (take n b))) ns)
  progress-Kept ns = map-All Kept (λ n. staged dir (holding true (take n b))) ns (λ n. inl refl)

  write_and_rename-IsWhole : (run : PublishRun) → IsWhole (write_and_rename run dir b)
  unfolding write_and_rename
  write_and_rename-IsWhole run = through-IsWhole _ _ (progress-Kept run.progress) (
      if_rule IsWhole (not run.wrote) _ _ (λ _. discard-IsWhole run _ refl)
        (λ _.
          if_rule IsWhole (run.synced && run.renamed) _ _
            (λ _. record { whole = (inl refl, tt); ending = inl (refl, refl) })
            (λ _. discard-IsWhole run _ refl)))

  pub open_and_write-IsWhole : (run : PublishRun) → IsWhole (open_and_write run dir b)
  unfolding open_and_write
  open_and_write-IsWhole run =
      if_rule IsWhole (not run.opened || is_there dir.temporary) _ _ (λ _. stop-IsWhole _ dir refl)
        (λ _.
          through-IsWhole (staged dir (holding run.opened_private []) ∷ []) _ (inl refl, tt)
            (if_rule IsWhole run.restricted _ _ (λ _. write_and_rename-IsWhole run)
              (λ _. stop-IsWhole _ _ refl)))
