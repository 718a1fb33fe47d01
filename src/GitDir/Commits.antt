-- ===== src/GitDir/Commits.antt =====
-- pkg/gitdir/gitdir.go: what is written to the commit channel, over all runs of the operations.
use libgitops.Prelude.{
  ◌≡◌, refl, sym, ap, ◌∙◌, subst, none, Bool, true, false, some, List, [], ◌∷◌, ◌++◌, arith, inl,
  inr, ◌⊎◌, Bool-cases, Option-cases, if◌then◌else◌,
}
use libgitops.Prelude.Text.{Str, str_eq}
use libgitops.Prelude.Outcome.{Outcome, Done, ok, err, panic}
use libgitops.GitDir.{
  GitDirectory, GoGit, suspend, unlock, verify_read, verify_write, is_sending, observe_commit,
  context_with_timeout, timed,
}
use libgitops.GitDir.Calls.{
  Next, go_on, return_with, clone_next, sync_next, guarded, settle, with_lock, report_head,
  compare_head, set_worktree, clone_locked, pull_verified, push_commit, commit_status,
}

-- The last of the commits that were written to the channel.
unfoldable pub last_of : List Str → Str
last_of [] = []
last_of (x ∷ []) = x
last_of (x ∷ y ∷ ys) = last_of (y ∷ ys)

last_of-append : (xs : List Str) (x : Str) → last_of (xs ++ (x ∷ [])) ≡ x
unfolding last_of
last_of-append [] x = refl
last_of-append (y ∷ []) x = refl
last_of-append (y ∷ z ∷ xs) x = last_of-append (z ∷ xs) x

module _ {W Auth : Type 0} where
  -- The last commit that was sent is the one that is known, and none is sent before the clone.
  pub record IsHeard (d : GitDirectory W Auth) : Type 0 where
    pub heard : last_of d.commit_chan ≡ d.last_commit
    pub silent : d.has_wt ≡ false → d.commit_chan ≡ []

  observe_commit-IsHeard :
      (hash : Str) (d : GitDirectory W Auth) → d.has_wt ≡ true → IsHeard (observe_commit hash d)
  unfolding observe_commit
  observe_commit-IsHeard hash d w = record {
    heard = last_of-append d.commit_chan hash;
    silent = λ n. ground (arith, w, n);
  }

  report_head-IsHeard :
      (o : Outcome Str) (d : GitDirectory W Auth)
      → d.has_wt ≡ true
      → IsHeard d
      → IsHeard (report_head o d).0
  unfolding report_head
  report_head-IsHeard (ok hash) d w i = observe_commit-IsHeard hash d w
  report_head-IsHeard (err e) d w i = i
  report_head-IsHeard panic d w i = i

  compare_head-IsHeard :
      (o : Outcome Str) (d : GitDirectory W Auth)
      → d.has_wt ≡ true
      → IsHeard d
      → IsHeard (compare_head o d).0
  unfolding compare_head
  compare_head-IsHeard (ok hash) d w i = elim (Bool-cases (str_eq d.last_commit hash)) [
    | inl e ↦ subst (λ b. IsHeard (if b then d else observe_commit hash d)) (sym e) i
    | inr e ↦
        subst (λ b. IsHeard (if b then d else observe_commit hash d)) (sym e)
          (observe_commit-IsHeard hash d w)
  ]
  compare_head-IsHeard (err e) d w i = i
  compare_head-IsHeard panic d w i = i

  pub settle-IsHeard :
      (n : Next) (k : GitDirectory W Auth → GitDirectory W Auth × Done) (d : GitDirectory W Auth)
      → IsHeard d
      → IsHeard (k d).0
      → IsHeard (settle n k d).0
  unfolding settle
  settle-IsHeard go_on k d i j = j
  settle-IsHeard (return_with result) k d i j = i

  pub guarded-IsHeard :
      (c : Done) (k : GitDirectory W Auth → GitDirectory W Auth × Done) (d : GitDirectory W Auth)
      → IsHeard d
      → ((c ≡ ok tt) → IsHeard (k d).0)
      → IsHeard (guarded c k d).0
  unfolding guarded
  guarded-IsHeard (ok u) k d i j = j refl
  guarded-IsHeard (err e) k d i j = i
  guarded-IsHeard panic k d i j = i

  pub verify_read_lem : (d : GitDirectory W Auth) → verify_read d ≡ ok tt → d.has_wt ≡ true
  unfolding verify_read
  verify_read_lem d h = ground (arith, h)

  pub verify_write_lem : (d : GitDirectory W Auth) → verify_write d ≡ ok tt → d.has_wt ≡ true
  unfolding verify_write verify_read
  verify_write_lem d h = ground (arith, h)

  -- The parts of the state that the property does not speak of may change.
  pub with_world-IsHeard :
      (w : W) (d : GitDirectory W Auth) → IsHeard d → IsHeard (record d { world = w })
  with_world-IsHeard w d i = record { heard = i.heard; silent = i.silent }

  pub with_lock_lem :
      (k : GitDirectory W Auth → GitDirectory W Auth × Done) (d : GitDirectory W Auth)
      (r : GitDirectory W Auth × Done)
      → with_lock k d ≡ some r
      → (is_sending (k (record d { locked = true })).0 ≡ false)
        × (r ≡ (unlock (k (record d { locked = true })).0, (k (record d { locked = true })).1))
  unfolding with_lock suspend
  with_lock_lem k d r h = (ground (arith, h), ground (arith, h))

  -- An operation that comes back waits for no room in the channel.
  pub with_lock-is_sending :
      (k : GitDirectory W Auth → GitDirectory W Auth × Done) (d : GitDirectory W Auth)
      (r : GitDirectory W Auth × Done)
      → with_lock k d ≡ some r
      → is_sending r.0 ≡ false
  unfolding unlock is_sending
  with_lock-is_sending k d r h =
      let came = with_lock_lem k d r h in ap (λ x. is_sending x.0) came.1 ∙ came.0

  pub guarded-is_sending :
      (c : Done) (k : GitDirectory W Auth → GitDirectory W Auth × Done) (d : GitDirectory W Auth)
      → is_sending d ≡ false
      → is_sending (k d).0 ≡ false
      → is_sending (guarded c k d).0 ≡ false
  unfolding guarded
  guarded-is_sending (ok u) k d i j = j
  guarded-is_sending (err e) k d i j = i
  guarded-is_sending panic k d i j = i

  pub with_lock-IsHeard :
      (k : GitDirectory W Auth → GitDirectory W Auth × Done) (d : GitDirectory W Auth)
      (r : GitDirectory W Auth × Done)
      → with_lock k d ≡ some r
      → IsHeard d
      → ((d1 : GitDirectory W Auth) → IsHeard d1 → IsHeard (k d1).0)
      → IsHeard r.0
  unfolding unlock
  with_lock-IsHeard k d r h i j =
      let i1 = j (record d { locked = true }) (record { heard = i.heard; silent = i.silent }) in
      subst (λ x. IsHeard x.0) (sym (with_lock_lem k d r h).1)
        (record { heard = i1.heard; silent = i1.silent })

module _ {W Auth : Type 0} (g : GoGit W Auth) where
  set_worktree-IsHeard :
      (o : Done) (d : GitDirectory W Auth) → IsHeard d → IsHeard (set_worktree g o d).0
  unfolding set_worktree
  set_worktree-IsHeard (ok u) d i =
      report_head-IsHeard (g.head d.world) (record d { has_wt = true }) refl
        (record { heard = i.heard; silent = λ n. ground (arith, n) })
  set_worktree-IsHeard (err e) d i = i
  set_worktree-IsHeard panic d i = i

  -- `clone` after the authentication method is found.
  cloned : Auth → GitDirectory W Auth → GitDirectory W Auth × Done
  cloned a d =
      let r = g.plain_clone (timed d.is_cancelled d) (some a) d.opts.branch d.world in
      settle (clone_next (context_with_timeout r)) (set_worktree g (g.worktree r.world))
        (record d { world = r.world })

  cloned-IsHeard : (a : Auth) (d : GitDirectory W Auth) → IsHeard d → IsHeard (cloned a d).0
  unfolding cloned
  cloned-IsHeard a d i =
      let r = g.plain_clone (timed d.is_cancelled d) (some a) d.opts.branch d.world in
      let j = with_world-IsHeard r.world d i in
      settle-IsHeard (clone_next (context_with_timeout r)) (set_worktree g (g.worktree r.world))
        (record d { world = r.world }) j
        (set_worktree-IsHeard (g.worktree r.world) (record d { world = r.world }) j)

  clone_locked-cases :
      (d : GitDirectory W Auth)
      → (clone_locked g d ≡ (d, panic)) ⊎ ((a : Auth) × (clone_locked g d ≡ cloned a d))
  unfolding clone_locked cloned
  clone_locked-cases d = by_auth (Option-cases d.opts.auth_method)
    where
      by_auth :
          (d.opts.auth_method ≡ none) ⊎ ((a : Auth) × (d.opts.auth_method ≡ some a))
          → (clone_locked g d ≡ (d, panic)) ⊎ ((a : Auth) × (clone_locked g d ≡ cloned a d))
      by_auth (inl h) = inl (rw h)
      by_auth (inr (a, h)) = inr (a, rw h)

  pub clone_locked-IsHeard : (d : GitDirectory W Auth) → IsHeard d → IsHeard (clone_locked g d).0
  clone_locked-IsHeard d i = elim (clone_locked-cases d) [
    | inl h ↦ subst (λ x. IsHeard x.0) (sym h) i
    | inr (a, h) ↦ subst (λ x. IsHeard x.0) (sym h) (cloned-IsHeard a d i)
  ]

  pub pull_verified-IsHeard :
      (c : Bool) (d : GitDirectory W Auth)
      → d.has_wt ≡ true
      → IsHeard d
      → IsHeard (pull_verified g c d).0
  unfolding pull_verified
  pull_verified-IsHeard c d w i =
      let r = g.pull (timed c d) d.opts.auth_method d.world in
      let j = with_world-IsHeard r.world d i in
      settle-IsHeard (sync_next (context_with_timeout r)) (compare_head (g.head r.world))
        (record d { world = r.world }) j
        (compare_head-IsHeard (g.head r.world) (record d { world = r.world }) w j)

  push_commit-IsHeard :
      (c : Bool) (o : Outcome Str) (d : GitDirectory W Auth)
      → d.has_wt ≡ true
      → IsHeard d
      → IsHeard (push_commit g c o d).0
  unfolding push_commit
  push_commit-IsHeard c (ok hash) d w i =
      let r = g.push (timed c d) d.opts.auth_method d.world in
      let j = with_world-IsHeard r.world d i in
      settle-IsHeard (sync_next (context_with_timeout r)) (report_head (ok hash))
        (record d { world = r.world }) j
        (report_head-IsHeard (ok hash) (record d { world = r.world }) w j)
  push_commit-IsHeard c (err e) d w i = i
  push_commit-IsHeard c panic d w i = i

  pub commit_status-IsHeard :
      (c : Bool) (name email msg : Str) (o : Outcome Bool) (d : GitDirectory W Auth)
      → d.has_wt ≡ true
      → IsHeard d
      → IsHeard (commit_status g c name email msg o d).0
  unfolding commit_status
  commit_status-IsHeard c name email msg (ok true) d w i = i
  commit_status-IsHeard c name email msg (ok false) d w i =
      let r = g.commit_all name email msg d.world in
      push_commit-IsHeard c r.1 (record d { world = r.0 }) w (with_world-IsHeard r.0 d i)
  commit_status-IsHeard c name email msg (err e) d w i = i
  commit_status-IsHeard c name email msg panic d w i = i
