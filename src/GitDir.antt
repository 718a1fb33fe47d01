-- ===== src/GitDir.antt =====
-- pkg/gitdir/gitdir.go: a clone of a Git repository. The library go-git is the parameter `GoGit`,
-- over a world `W`: the clone's directory and the remote. An operation that waits for the mutex
-- while it is locked, or for room in the commit channel, has no result, `none`: its step is made
-- later, when another one has unlocked the mutex, or a reader has received a commit.
pub mod Calls
pub mod Access
pub mod Commits
pub mod Runs
use libgitops.Prelude.{
  ℕ, ◌+◌, nat_beq, ltb, length, Bool, true, false, not, Option, none, some, List, [], ◌∷◌, ◌++◌,
  if◌then◌else◌,
}
use libgitops.Prelude.Text.{Str, bytes, str_eq, is_empty}
use libgitops.Prelude.Outcome.{
  Outcome, Done, ok, err, panic, ◌>>=◌, ◌>>◌, Error, not_started, cannot_write_to_read_only,
  git_timeout, git_failure,
}

-- The errors that the code tells apart after an operation with a context.
pub data GitError : Type 0 where
  already_up_to_date deadline_exceeded canceled : GitError
  failed : Error → GitError

-- A context, with the timeout that `context.WithTimeout` sets for it.
pub record Context : Type 0 where
  pub is_cancelled : Bool
  pub timeout : ℕ

-- What a function with a context leaves: its error, and `ctx.Err()` after it.
pub record Ran (W : Type 0) : Type 0 where
  pub world : W
  pub fn_err : Option GitError
  pub ctx_err : Option GitError

-- What the code uses of go-git. The string is a branch, a commit or a message.
pub record GoGit (W : Type 0) (Auth : Type 0) : Type 0 where
  pub plain_clone : Context → Option Auth → Str → W → Ran W
  pub worktree : W → Done
  pub head : W → Outcome Str
  pub pull : Context → Option Auth → W → Ran W
  pub clean : W → W
  pub checkout_create : Str → W → W × Done
  pub checkout_force : Str → W → W × Done
  pub status_is_clean : W → Outcome Bool
  pub commit_all : Str → Str → Str → W → W × Outcome Str
  pub push : Context → Option Auth → W → Ran W
  pub remove_all : Str → W → W × Done

-- `GitDirectoryOptions`
pub record GitDirectoryOptions (Auth : Type 0) : Type 0 where
  pub branch : Str
  pub interval : ℕ
  pub timeout : ℕ
  pub auth_method : Option Auth

-- `Default`, with times in seconds.
unfoldable pub default : {Auth : Type 0} → GitDirectoryOptions Auth → GitDirectoryOptions Auth
default o = record {
  branch = if is_empty o.branch then bytes "master" else o.branch;
  interval = if nat_beq o.interval 0 then 30 else o.interval;
  timeout = if nat_beq o.timeout 0 then 60 else o.timeout;
  auth_method = o.auth_method;
}

-- `gitDirectory`: `has_wt` is `wt != nil`, `commit_chan` what was sent to the channel so far,
-- `received` how many of these were received from it, and `is_cancelled` says that the context of the struct is.
pub record GitDirectory (W : Type 0) (Auth : Type 0) : Type 0 where
  pub opts : GitDirectoryOptions Auth
  pub clone_dir : Str
  pub has_wt : Bool
  pub last_commit : Str
  pub commit_chan : List Str
  pub received : ℕ
  pub is_cancelled : Bool
  pub locked : Bool
  pub world : W

-- `NewGitDirectory`, where `temp_dir` is the result of `ioutil.TempDir`.
unfoldable pub new_git_directory :
    {W Auth : Type 0} → GitDirectoryOptions Auth → Outcome Str → W → Outcome (GitDirectory W Auth)
unfolding default
new_git_directory opts temp_dir w = do
  tmp ← temp_dir
  ok (record {
    opts = default opts;
    clone_dir = tmp;
    has_wt = false;
    last_commit = [];
    commit_chan = [];
    received = 0;
    is_cancelled = false;
    locked = false;
    world = w;
  })

-- `contextWithTimeout`, after `fn` has run: the context's error comes first.
unfoldable pub context_with_timeout : {W : Type 0} → Ran W → Option GitError
context_with_timeout r = elim r.ctx_err [ some e ↦ some e | none ↦ r.fn_err ]

module _ {W Auth : Type 0} where
  -- `lock.Lock()`, which waits if the mutex is locked; also `Suspend`.
  unfoldable pub suspend : GitDirectory W Auth → Option (GitDirectory W Auth)
  suspend d = if d.locked then none else some (record d { locked = true })

  -- `lock.Unlock()` of a locked mutex.
  unfoldable pub unlock : GitDirectory W Auth → GitDirectory W Auth
  unlock d = record d { locked = false }

  -- `Resume`: to unlock a mutex that is not locked is a fatal error.
  unfoldable pub resume : GitDirectory W Auth → GitDirectory W Auth × Done
  unfolding unlock
  resume d = if d.locked then (unlock d, ok tt) else (d, panic)

  unfoldable pub can_write : GitDirectory W Auth → Bool
  can_write d = elim d.opts.auth_method [ none ↦ false | some a ↦ true ]

  unfoldable pub verify_read : GitDirectory W Auth → Done
  verify_read d = if d.has_wt then ok tt else err not_started

  unfoldable pub verify_write : GitDirectory W Auth → Done
  unfolding verify_read can_write
  verify_write d = verify_read d >> (if can_write d then ok tt else err cannot_write_to_read_only)

  -- The send that came last waits, since the channel already holds 1024 commits.
  unfoldable pub is_sending : GitDirectory W Auth → Bool
  is_sending d = ltb (d.received + 1024) (length d.commit_chan)

  -- A reader of `CommitChannel` receives a commit, if there is one.
  unfoldable pub receive : GitDirectory W Auth → GitDirectory W Auth
  receive d =
      if ltb d.received (length d.commit_chan) then record d { received = d.received + 1 } else d

  -- The send is the last thing that an operation does before it returns: the operation comes back
  -- if the state is not `is_sending` after it.
  unfoldable pub observe_commit : Str → GitDirectory W Auth → GitDirectory W Auth
  observe_commit hash d = record d {
    last_commit = hash;
    commit_chan = d.commit_chan ++ (hash ∷ []);
  }

  -- A context of the struct's lifetime, or the caller's, with the timeout of the options.
  unfoldable pub timed : Bool → GitDirectory W Auth → Context
  timed is_cancelled d = record { is_cancelled = is_cancelled; timeout = d.opts.timeout }
