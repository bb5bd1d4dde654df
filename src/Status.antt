-- ===== src/Status.antt =====
-- crates/certael-agent/src/status.rs: the status file that other programs read.
pub mod Whole
pub mod RoundTrip
mod Tests
use certael_agent.Prelude.Int.{ℤ}
use certael_agent.Text.{text, Bytes, bytes, Text, len, is_ascii_alphanumeric}
use certael_agent.Prelude.{
  [], ◌∷◌, List, if◌then◌else◌, ◌&&◌, ◌==◌, ◌||◌, ◌>>◌, ◌>>=◌, ◌++◌, ◌≡◌, ok, ℕ, all, ltb, is_empty,
  ok_or, Result, refuse_if, length, map, take, Option, false, none, err, true, String, not, some,
  Bool,
}

pub record RuntimeStatus : Type 0 where
  pub format_version : ℕ
  pub registration_id : Text
  pub game_id : Text
  pub state : String
  pub public_reason : Option String
  pub updated_at_unix : ℤ
  pub launch_attempt_id : Option Text
  pub milestone_index : Option ℕ
  pub milestone_total : Option ℕ

-- serde_json for the status.
pub record StatusFormat : Type 0 where
  pub parse : Bytes → Option RuntimeStatus
  pub print : RuntimeStatus → Option Bytes

-- What stands at a path: is it a link, is it a regular file, can nobody but its owner read or write
-- it, its size, and its bytes if they can be read.
pub record StatusFile : Type 0 where
  pub is_link : Bool
  pub is_file : Bool
  pub private : Bool
  pub size : ℕ
  pub content : Option Bytes

-- What stands at the status path, and at the temporary path next to it.
pub record StatusDir : Type 0 where
  pub status : Option StatusFile
  pub temporary : Option StatusFile

-- What becomes of the system calls of one publication, in their order: the parent of the path,
-- `create_dir_all`, the clock, `open` and whether the new file is private, `set_permissions`,
-- `write_all` with the lengths that the file passes and, if it fails, the one that it leaves,
-- `sync_all`, `rename` and `remove_file`.
pub record PublishRun : Type 0 where
  pub has_parent : Bool
  pub created : Bool
  pub timed : Bool
  pub opened : Bool
  pub opened_private : Bool
  pub restricted : Bool
  pub progress : List ℕ
  pub wrote : Bool
  pub left : ℕ
  pub synced : Bool
  pub renamed : Bool
  pub removed : Bool

-- The states that a publication passes, its last state, and its result.
pub record Publication : Type 0 where
  pub passed : List StatusDir
  pub last : StatusDir
  pub result : Result String (Unit {0})

unfoldable pub id_byte : ℕ → Bool
id_byte b = is_ascii_alphanumeric b || (b == b'.' || b == b'_' || b == b'-')

unfoldable pub bad_id : Text → Bool
unfolding len id_byte
bad_id id = is_empty id || ltb 128 (len id) || not (all id_byte (bytes id))

unfoldable pub ends_with_slash : Text → Bool
ends_with_slash [] = false
ends_with_slash (c ∷ []) = c == b'/'
ends_with_slash (c ∷ d ∷ s) = ends_with_slash (d ∷ s)

-- `PathBuf::join` with a path that does not begin with a slash.
unfoldable pub join : Text → Text → Text
unfolding ends_with_slash
join dir relative =
    if is_empty dir || ends_with_slash dir then dir ++ relative else (dir ++ text "/" ++ relative)

-- The user's state directory, from XDG_STATE_HOME and HOME as the environment has them.
unfoldable pub state_root : Option Text → Option Text → Option Text
unfolding join
state_root (some xdg) home = some xdg
state_root none (some home) = some (join home (text ".local/state"))
state_root none none = none

-- The path of a status on Unix.
unfoldable pub path : Option Text → Option Text → Text → Result String Text
unfolding bad_id state_root
path xdg home id =
    refuse_if (bad_id id) "invalid status registration ID"
    >> (ok_or (state_root xdg home) "user state directory is unavailable" >>= λ root.
        ok (join (join root (text "certael-agent")) (id ++ text ".json")))

abbrev pub holding : Bool → Bytes → StatusFile
holding private b = record {
  is_link = false;
  is_file = true;
  private = private;
  size = length b;
  content = some b;
}

abbrev pub staged : StatusDir → StatusFile → StatusDir
staged dir f = record dir { temporary = some f }

abbrev pub is_there : Option StatusFile → Bool
is_there none = false
is_there (some f) = true

abbrev pub stop : String → StatusDir → Publication
stop message dir = record { passed = []; last = dir; result = err message }

abbrev pub through : List StatusDir → Publication → Publication
through ds p = record p { passed = ds ++ p.passed }

-- `rename(&temporary, path)`
abbrev pub replaced : StatusDir → StatusDir
replaced dir = record { status = dir.temporary; temporary = none }

-- `remove_file(&temporary)`, whose error is ignored, and the error of the step before it.
unfoldable pub discard : PublishRun → StatusDir → Publication
discard run dir = record {
  passed = dir ∷ [];
  last = if run.removed then record dir { temporary = none } else dir;
  result = err "cannot publish Agent status";
}

-- From `write_all` on.
unfoldable pub write_and_rename : PublishRun → StatusDir → Bytes → Publication
unfolding discard
write_and_rename run dir b =
    let full = staged dir (holding true b) in
    through (map (λ n. staged dir (holding true (take n b))) run.progress) (
      if not run.wrote
      then discard run (staged dir (holding true (take run.left b)))
      else if run.synced && run.renamed
      then record { passed = full ∷ []; last = replaced full; result = ok tt }
      else discard run full)

-- From `open` on: `create_new` refuses a name that is taken, and where `set_permissions` fails the
-- new file stays.
unfoldable pub open_and_write : PublishRun → StatusDir → Bytes → Publication
unfolding write_and_rename
open_and_write run dir b =
    let new_file = staged dir (holding run.opened_private []) in
    if not run.opened || is_there dir.temporary
    then stop "cannot create the temporary file" dir
    else through (new_file ∷ []) (
        if run.restricted
        then write_and_rename run dir b
        else stop "cannot restrict the temporary file" new_file)

module _ (x : StatusFormat) where
  unfoldable pub publish : PublishRun → StatusDir → RuntimeStatus → Publication
  unfolding open_and_write
  publish run dir status =
      if not run.has_parent
      then stop "status path has no parent" dir
      else if not run.created
      then stop "cannot create Agent status directory" dir
      else elim (x.print status) [
        | none ↦ stop "cannot print Agent status" dir
        | some b ↦
            if not run.timed
            then stop "the clock is before the epoch" dir
            else open_and_write run dir b
      ]

  unfoldable pub read : Option StatusFile → Result String RuntimeStatus
  read file = ok_or file "Agent status file is missing" >>= λ f.
      refuse_if (f.is_link || not f.is_file || ltb 16384 f.size) "Agent status file is invalid"
      >> (ok_or f.content "Agent status file is unreadable" >>= λ b.
          ok_or (x.parse b) "Agent status file is malformed" >>= λ status.
          refuse_if (not (status.format_version == 1 || status.format_version == 2))
            "Agent status version is unsupported"
          >> ok status)
