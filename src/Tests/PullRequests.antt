-- ===== src/Tests/PullRequests.antt =====
-- A repository with two milestones of one title, whose state is the number of its pull requests.
use libgitops.PullRequest.{unless_empty}
use libgitops.PullRequest.{edit_if_set}
use libgitops.PullRequest.{milestone_id}
use libgitops.PullRequest.{label_pull_request}
use libgitops.PullRequest.{find_milestone}
use libgitops.Prelude.{ℕ, suc, ◌≡◌, refl, true, some, List, [], ◌∷◌}
use libgitops.Prelude.Text.{bytes}
use libgitops.Prelude.Outcome.{ok, err, milestone_not_found}
use libgitops.Transaction.Results.{PullRequestSpec, validate_spec}
use libgitops.PullRequest.{Milestone, Client, get_milestone_id, create_pull_request}
use libgitops.PullRequest.Laws.{IsFirst, get_milestone_id-IsFirst, create_pull_request-lacks}

abbrev milestones : List Milestone
milestones =
    record { title = bytes "v1"; number = some 4 }
    ∷ record { title = bytes "v2"; number = some 5 }
    ∷ record { title = bytes "v2"; number = some 6 }
    ∷ []

abbrev client : Client ℕ
client = record {
  create = λ owner repo request h. (suc h, ok h);
  list_milestones = λ owner repo h. ok milestones;
  edit = λ owner repo number request h. (h, ok tt);
}

abbrev spec : PullRequestSpec
spec = record {
  result = record {
    commit = record {
      author_name = bytes "me";
      author_email = bytes "me@example.com";
      title = bytes "change";
      description = [];
    };
    labels = bytes "bug" ∷ [];
    assignees = [];
    milestone = bytes "v3";
  };
  main_branch = bytes "main";
  merge_branch = bytes "change";
  has_repository_ref = true;
}

second_milestone : get_milestone_id client (bytes "me") (bytes "repo") (bytes "v2") 0 ≡ ok 5
unfolding get_milestone_id find_milestone
second_milestone = refl

spec_valid : validate_spec spec ≡ ok tt
unfolding validate_spec
spec_valid = refl

without_milestone :
    create_pull_request client
      (bytes "me")
      (bytes "repo")
      (record spec { result = record spec.result { milestone = [] } })
      2
    ≡ (3, ok tt)
unfolding create_pull_request validate_spec label_pull_request milestone_id edit_if_set unless_empty
without_milestone = refl

get_milestone_id-IsFirst_example : IsFirst (bytes "v2") milestones 5
get_milestone_id-IsFirst_example =
    get_milestone_id-IsFirst client (bytes "me") (bytes "repo") (bytes "v2") 0 milestones 5 refl
      second_milestone

create_pull_request-lacks_example :
    create_pull_request client (bytes "me") (bytes "repo") spec 2 ≡ (3, err milestone_not_found)
create_pull_request-lacks_example =
    create_pull_request-lacks client (bytes "me") (bytes "repo") spec 2 3 2 milestones spec_valid
      refl refl refl refl
