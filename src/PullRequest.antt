-- ===== src/PullRequest.antt =====
-- pkg/storage/transaction/pullrequest/github/github.go: the provider of pull requests on GitHub. The
-- client of go-github is a parameter: what each call does to the state of the service.
pub mod Laws
use libgitops.Prelude.{
  ℕ, Bool, true, false, not, ◌||◌, Option, none, some, List, [], ◌∷◌, if◌then◌else◌,
}
use libgitops.Prelude.Text.{Str, str_eq, is_empty}
use libgitops.Prelude.Outcome.{
  Outcome, Done, ok, err, panic, ◌>>=◌, provider_not_supported, invalid_spec, nil_milestone_number,
  milestone_not_found,
}
use libgitops.Transaction.Results.{PullRequestSpec, PullRequestResult, CommitResult, validate_spec}

-- `gogithub.NewPullRequest`, `gogithub.IssueRequest` and `gogithub.Milestone`.
pub record NewPullRequest : Type 0 where
  pub head : Str
  pub base : Str
  pub title : Str
  pub body : Option Str

pub record IssueRequest : Type 0 where
  pub milestone : Option ℕ
  pub assignees : Option (List Str)
  pub labels : Option (List Str)

pub record Milestone : Type 0 where
  pub title : Str
  pub number : Option ℕ

-- The raw client, for the owner and the name of a repository: a pull request is created with a
-- number, all milestones are listed, and the issue of a number is edited.
pub record Client (H : Type 0) : Type 0 where
  pub create : Str → Str → NewPullRequest → H → H × Outcome ℕ
  pub list_milestones : Str → Str → H → Outcome (List Milestone)
  pub edit : Str → Str → ℕ → IssueRequest → H → H × Done

-- `NewGitHubPRProvider`, of the test of the provider's identity.
unfoldable pub new_github_pr_provider : {P : Type 0} → Bool → P → Outcome P
new_github_pr_provider is_github c = if not is_github then err provider_not_supported else ok c

-- The loop of `getMilestoneID`.
unfoldable pub find_milestone : Str → List Milestone → Outcome ℕ
find_milestone name [] = err milestone_not_found
find_milestone name (milestone ∷ milestones) =
    let rest = find_milestone name milestones in
    if not (str_eq milestone.title name)
    then rest
    else elim milestone.number [ none ↦ err nil_milestone_number | some n ↦ ok n ]

-- A list that is only set if it is not empty.
unfoldable pub unless_empty : List Str → Option (List Str)
unless_empty [] = none
unless_empty (x ∷ xs) = some (x ∷ xs)

abbrev pub is_set : {A : Type 0} → Option A → Bool
is_set none = false
is_set (some a) = true

unfoldable pub new_pull_request : PullRequestSpec → NewPullRequest
new_pull_request spec =
    let commit = spec.result.commit in
    record {
      head = spec.merge_branch;
      base = spec.main_branch;
      title = commit.title;
      body = if is_empty commit.description then none else some commit.description;
    }

module _ {H : Type 0} (client : Client H) (owner repo : Str) where
  unfoldable pub get_milestone_id : Str → H → Outcome ℕ
  get_milestone_id name h = client.list_milestones owner repo h >>= find_milestone name

  -- The milestone of `CreatePullRequest`, which is nil if the specification has none.
  unfoldable pub milestone_id : Str → H → Outcome (Option ℕ)
  milestone_id name h =
      if is_empty name then ok none else (do n ← get_milestone_id name h; ok (some n))

  -- The end of `CreatePullRequest`.
  unfoldable pub edit_if_set : ℕ → IssueRequest → H → H × Done
  edit_if_set number request h =
      if is_set request.milestone || (is_set request.assignees || is_set request.labels)
      then client.edit owner repo number request h
      else (h, ok tt)

  -- What `CreatePullRequest` does after the call that creates the pull request.
  unfoldable pub label_pull_request : PullRequestResult → H × Outcome ℕ → H × Done
  label_pull_request result (h, err e) = (h, err e)
  label_pull_request result (h, panic) = (h, panic)
  label_pull_request result (h, ok number) = elim (milestone_id result.milestone h) [
    | err e ↦ (h, err e)
    | panic ↦ (h, panic)
    | ok milestone ↦
        edit_if_set number
          (record {
            milestone = milestone;
            assignees = unless_empty result.assignees;
            labels = unless_empty result.labels;
          })
          h
  ]

  -- `CreatePullRequest`, for the owner and the name of the specification's repository.
  unfoldable pub create_pull_request : PullRequestSpec → H → H × Done
  create_pull_request spec h = elim (validate_spec spec) [
    | err e ↦ (h, err invalid_spec)
    | panic ↦ (h, panic)
    | ok u ↦ label_pull_request spec.result (client.create owner repo (new_pull_request spec) h)
  ]
