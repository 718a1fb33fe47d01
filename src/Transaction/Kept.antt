-- ===== src/Transaction/Kept.antt =====
-- pkg/gitdir/gitdir.go: what the operations of a transaction leave as it is.
use libgitops.Prelude.{
  ℕ, ◌+◌, ◌≤◌, length, length-append, [], ◌∷◌, ◌≡◌, ap, refl, sym, ◌∙◌, Bool, true, false, some,
  arith,
}
use libgitops.Prelude.Text.{Str}
use libgitops.Prelude.Outcome.{Outcome, Done, ok, err, panic}
use libgitops.GitDir.{
  GitDirectory, GoGit, suspend, unlock, verify_read, verify_write, can_write, observe_commit,
  is_sending, context_with_timeout, timed,
}
use libgitops.GitDir.Calls.{
  Next, go_on, return_with, sync_next, guarded, settle, with_lock, report_head, compare_head,
  pull_verified, pull, checkout_new_branch, checkout_main_branch, push_commit, commit_status,
  commit,
}
use libgitops.GitDir.Commits.{with_lock-is_sending, with_lock_lem}

module _ {W Auth : Type 0} where
  -- The second state has the options, the worktree and the lock of the first, and at most `n` more
  -- commits were sent to the channel.
  pub record Kept (n : ℕ) (d e : GitDirectory W Auth) : Type 0 where
    pub opts : e.opts ≡ d.opts
    pub has_wt : e.has_wt ≡ d.has_wt
    pub locked : e.locked ≡ d.locked
    pub received : e.received ≡ d.received
    pub sent : length e.commit_chan ≤ length d.commit_chan + n

  pub Kept-refl : (n : ℕ) (d : GitDirectory W Auth) → Kept n d d
  Kept-refl n d = record {
    opts = refl;
    has_wt = refl;
    locked = refl;
    received = refl;
    sent = omega arith;
  }

  pub Kept-trans :
      (n m : ℕ) (d e f : GitDirectory W Auth) → Kept n d e → Kept m e f → Kept (n + m) d f
  Kept-trans n m d e f i j = record {
    opts = j.opts ∙ i.opts;
    has_wt = j.has_wt ∙ i.has_wt;
    locked = j.locked ∙ i.locked;
    received = j.received ∙ i.received;
    sent = omega (arith, i.sent, j.sent);
  }

  -- With room for what is sent, no send waits.
  pub Kept-is_sending :
      (n : ℕ) (d e : GitDirectory W Auth)
      → Kept n d e
      → length d.commit_chan + n ≤ d.received + 1024
      → is_sending e ≡ false
  unfolding is_sending
  Kept-is_sending n d e k room = ground (arith, k.received, k.sent, room)

  -- What may be written is decided by what is kept.
  pub verify_write-Kept :
      (d e : GitDirectory W Auth)
      → e.opts ≡ d.opts
      → e.has_wt ≡ d.has_wt
      → verify_write d ≡ ok tt
      → verify_write e ≡ ok tt
  unfolding verify_write verify_read can_write
  verify_write-Kept d e o w h = ground (arith, o, w, h)

  guarded-Kept :
      {n : ℕ} (c : Done) (k : GitDirectory W Auth → GitDirectory W Auth × Done)
      (d : GitDirectory W Auth)
      → Kept n d (k d).0
      → Kept n d (guarded c k d).0
  unfolding guarded
  guarded-Kept (ok u) k d i = i
  guarded-Kept {n} (err e) k d i = Kept-refl n d
  guarded-Kept {n} panic k d i = Kept-refl n d

  settle-Kept :
      {m : ℕ} (n : Next) (k : GitDirectory W Auth → GitDirectory W Auth × Done)
      (d : GitDirectory W Auth)
      → Kept m d (k d).0
      → Kept m d (settle n k d).0
  unfolding settle
  settle-Kept go_on k d i = i
  settle-Kept {m} (return_with result) k d i = Kept-refl m d

  with_world-Kept : (w : W) (d : GitDirectory W Auth) → Kept 0 d (record d { world = w })
  with_world-Kept w d = record {
    opts = refl;
    has_wt = refl;
    locked = refl;
    received = refl;
    sent = omega arith;
  }

  report_head-Kept : (o : Outcome Str) (d : GitDirectory W Auth) → Kept 1 d (report_head o d).0
  unfolding report_head observe_commit
  report_head-Kept (ok hash) d = record {
    opts = refl;
    has_wt = refl;
    locked = refl;
    received = refl;
    sent = omega (arith, length-append d.commit_chan (hash ∷ []));
  }
  report_head-Kept (err e) d = Kept-refl 1 d
  report_head-Kept panic d = Kept-refl 1 d

  compare_head-Kept : (o : Outcome Str) (d : GitDirectory W Auth) → Kept 1 d (compare_head o d).0
  unfolding compare_head observe_commit
  compare_head-Kept (ok hash) d = record {
    opts = ground arith;
    has_wt = ground arith;
    locked = ground arith;
    received = ground arith;
    sent = ground (arith, length-append d.commit_chan (hash ∷ []));
  }
  compare_head-Kept (err e) d = Kept-refl 1 d
  compare_head-Kept panic d = Kept-refl 1 d

module _ {W Auth : Type 0} (g : GoGit W Auth) where
  pub checkout_new_branch-Kept :
      (name : Str) (d : GitDirectory W Auth) → Kept 0 d (checkout_new_branch g name d).0
  unfolding checkout_new_branch
  checkout_new_branch-Kept name d = guarded-Kept (verify_write d) _ d (with_world-Kept _ d)

  pub checkout_main_branch-Kept : (d : GitDirectory W Auth) → Kept 0 d (checkout_main_branch g d).0
  unfolding checkout_main_branch
  checkout_main_branch-Kept d = guarded-Kept (verify_write d) _ d (with_world-Kept _ d)

  push_commit-Kept :
      (c : Bool) (o : Outcome Str) (d : GitDirectory W Auth) → Kept 1 d (push_commit g c o d).0
  unfolding push_commit
  push_commit-Kept c (ok hash) d =
      let r = g.push (timed c d) d.opts.auth_method d.world in
      let d1 = record d { world = r.world } in
      Kept-trans 0 1 d d1 _ (with_world-Kept r.world d) (
        settle-Kept (sync_next (context_with_timeout r)) (report_head (ok hash)) d1
          (report_head-Kept (ok hash) d1))
  push_commit-Kept c (err e) d = Kept-refl 1 d
  push_commit-Kept c panic d = Kept-refl 1 d

  commit_status-Kept :
      (c : Bool) (name email msg : Str) (o : Outcome Bool) (d : GitDirectory W Auth)
      → Kept 1 d (commit_status g c name email msg o d).0
  unfolding commit_status
  commit_status-Kept c name email msg (ok true) d = Kept-refl 1 d
  commit_status-Kept c name email msg (ok false) d =
      let r = g.commit_all name email msg d.world in
      let d1 = record d { world = r.0 } in
      Kept-trans 0 1 d d1 _ (with_world-Kept r.0 d) (push_commit-Kept c r.1 d1)
  commit_status-Kept c name email msg (err e) d = Kept-refl 1 d
  commit_status-Kept c name email msg panic d = Kept-refl 1 d

  pub commit-Kept :
      (c : Bool) (name email msg : Str) (d : GitDirectory W Auth)
      → Kept 1 d (commit g c name email msg d).0
  unfolding commit
  commit-Kept c name email msg d =
      guarded-Kept (verify_write d) _ d
        (commit_status-Kept c name email msg (g.status_is_clean d.world) d)

  pull_verified-Kept : (c : Bool) (d : GitDirectory W Auth) → Kept 1 d (pull_verified g c d).0
  unfolding pull_verified
  pull_verified-Kept c d =
      let r = g.pull (timed c d) d.opts.auth_method d.world in
      let d1 = record d { world = r.world } in
      Kept-trans 0 1 d d1 _ (with_world-Kept r.world d) (
        settle-Kept (sync_next (context_with_timeout r)) (compare_head (g.head r.world)) d1
          (compare_head-Kept (g.head r.world) d1))

  pub pull-is_sending :
      (c : Bool) (d : GitDirectory W Auth) (r : GitDirectory W Auth × Done)
      → pull g c d ≡ some r
      → is_sending r.0 ≡ false
  unfolding pull
  pull-is_sending c d r h =
      with_lock-is_sending (λ d1. guarded (verify_read d1) (pull_verified g c) d1) d r h

  -- A pull of a clone whose mutex is free, with room in the channel, comes back with the mutex free.
  pub pull-Kept :
      (c : Bool) (d : GitDirectory W Auth)
      → d.locked ≡ false
      → length d.commit_chan + 1 ≤ d.received + 1024
      → (e : GitDirectory W Auth) × (result : Done) × (pull g c d ≡ some (e, result)) × Kept 1 d e
  unfolding pull with_lock suspend unlock
  pull-Kept c d l room =
      let d1 = record d { locked = true } in
      let k = guarded (verify_read d1) (pull_verified g c) d1 in
      let i = guarded-Kept (verify_read d1) (pull_verified g c) d1 (pull_verified-Kept c d1) in
      (
        unlock k.0,
        k.1,
        ground (arith, l, Kept-is_sending 1 d1 k.0 i room),
        record {
          opts = i.opts;
          has_wt = i.has_wt;
          locked = sym l;
          received = i.received;
          sent = i.sent;
        },
      )

  -- What a pull that comes back has kept.
  pub pull-back :
      (c : Bool) (d : GitDirectory W Auth) (r : GitDirectory W Auth × Done)
      → pull g c d ≡ some r
      → (r.0.opts ≡ d.opts) × (r.0.has_wt ≡ d.has_wt) × (r.0.locked ≡ false)
  unfolding pull unlock
  pull-back c d r h =
      let d1 = record d { locked = true } in
      let i = guarded-Kept (verify_read d1) (pull_verified g c) d1 (pull_verified-Kept c d1) in
      let came = with_lock_lem (λ d2. guarded (verify_read d2) (pull_verified g c) d2) d r h in
      (
        ap (λ x. x.0.opts) came.1 ∙ i.opts,
        ap (λ x. x.0.has_wt) came.1 ∙ i.has_wt,
        ap (λ x. x.0.locked) came.1,
      )
