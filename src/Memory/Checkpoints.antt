-- ===== src/Memory/Checkpoints.antt =====
-- What a resumed run finds in its checkpoint.
use dev_team.Prelude.{
  String, ◌≡◌, refl, ap, ◌∙◌, false, [], ◌∷◌, ◌==◌, eq_refl, arith, if◌then◌else◌, elem,
  elem-append,
}
use dev_team.Prelude.Dict.{Dict, get-set}
use dev_team.Memory.{
  RunCheckpoint, mark_done, is_done, as_read, CheckpointFile, written, path_for, save_checkpoint,
  read_checkpoint, load_checkpoint,
}

is_done-mark_done :
    (t f tid fp : String) (c : RunCheckpoint)
    → is_done tid fp (mark_done t f c) ≡ (if t == tid then f == fp else is_done tid fp c)
unfolding is_done mark_done elem
is_done-mark_done t f tid fp c =
    ground (arith, elem-append tid c.done_task_ids (t ∷ []), get-set c.fingerprints t tid f)

is_done-as_read :
    (tid fp : String) (c : RunCheckpoint) → is_done tid fp (as_read c) ≡ is_done tid fp c
unfolding is_done as_read
is_done-as_read tid fp c = refl

module _ (digest : String → String) where
  load-save_self :
      (c : RunCheckpoint) (files : Dict CheckpointFile)
      → load_checkpoint digest c.feature_title (save_checkpoint digest c files) ≡ as_read c
  unfolding load_checkpoint save_checkpoint read_checkpoint
  load-save_self c files =
      rw
        (
          get-set files (path_for digest c.feature_title) (path_for digest c.feature_title)
              (written c),
          eq_refl (path_for digest c.feature_title),
          eq_refl c.feature_title,
        )
        refl

  load-save_other :
      (c : RunCheckpoint) (title : String) (files : Dict CheckpointFile)
      → (path_for digest c.feature_title == path_for digest title) ≡ false
      → load_checkpoint digest title (save_checkpoint digest c files)
        ≡ load_checkpoint digest title files
  unfolding load_checkpoint save_checkpoint
  load-save_other c title files e =
      rw (get-set files (path_for digest c.feature_title) (path_for digest title) (written c), e)
        refl

  -- A run that marks a task done and saves its checkpoint is resumed with that task done, and with the
  -- others as they were: a task counts as done exactly where its content has the fingerprint that was
  -- last recorded for it. A feature whose checkpoint is another file finds it as it was.
  pub load_checkpoint-save :
      (c : RunCheckpoint) (files : Dict CheckpointFile) (task fingerprint : String) (title : String)
      → (path_for digest c.feature_title == path_for digest title) ≡ false
      → ((tid fp : String)
          → is_done tid fp (
              load_checkpoint digest c.feature_title
                (save_checkpoint digest (mark_done task fingerprint c) files))
            ≡ (if task == tid then fingerprint == fp else is_done tid fp c))
        × (load_checkpoint digest title
              (save_checkpoint digest (mark_done task fingerprint c) files)
            ≡ load_checkpoint digest title files)
  unfolding mark_done
  load_checkpoint-save c files task fingerprint title e = (
    λ tid fp.
        ap (is_done tid fp) (load-save_self (mark_done task fingerprint c) files)
        ∙ (is_done-as_read tid fp (mark_done task fingerprint c)
            ∙ is_done-mark_done task fingerprint tid fp c),
    load-save_other (mark_done task fingerprint c) title files e,
  )
