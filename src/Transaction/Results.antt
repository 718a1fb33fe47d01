-- ===== src/Transaction/Results.antt =====
-- pkg/storage/transaction/commit.go and pullrequest.go: the results of a transaction and what they
-- must hold. The library's validator has an error exactly if a required field is missing or an
-- inner error is appended.
use libgitops.Prelude.{Bool, List, ◌∷◌, ◌++◌, if◌then◌else◌}
use libgitops.Prelude.Text.{Str, is_empty}
use libgitops.Prelude.Outcome.{Done, ok, err, ◌>>◌, invalid_result}

-- `GenericCommitResult`
pub record CommitResult : Type 0 where
  pub author_name : Str
  pub author_email : Str
  pub title : Str
  pub description : Str

-- `GetMessage`
unfoldable pub get_message : CommitResult → Str
get_message r = if is_empty r.description then r.title else r.title ++ (b'\n' ∷ r.description)

-- A required field.
unfoldable pub required : Str → Done
required s = if is_empty s then err invalid_result else ok tt

unfoldable pub validate_commit : CommitResult → Done
unfolding required
validate_commit r = required r.author_name >> required r.author_email >> required r.title

-- `GenericPullRequestResult`
pub record PullRequestResult : Type 0 where
  pub commit : CommitResult
  pub labels : List Str
  pub assignees : List Str
  pub milestone : Str

unfoldable pub validate_pull_request : PullRequestResult → Done
unfolding validate_commit
validate_pull_request r = validate_commit r.commit

-- `GenericPullRequestSpec`: of the reference of the repository, whether it is not nil.
pub record PullRequestSpec : Type 0 where
  pub result : PullRequestResult
  pub main_branch : Str
  pub merge_branch : Str
  pub has_repository_ref : Bool

unfoldable pub validate_spec : PullRequestSpec → Done
unfolding validate_pull_request required
validate_spec spec =
    validate_pull_request spec.result
    >> required spec.main_branch
    >> required spec.merge_branch
    >> (if spec.has_repository_ref then ok tt else err invalid_result)

-- A `CommitResult` that is one only, or that is a `PullRequestResult` too.
pub data TransactionResult : Type 0 where
  commit_result : CommitResult → TransactionResult
  pull_request_result : PullRequestResult → TransactionResult

unfoldable pub commit_of : TransactionResult → CommitResult
commit_of (commit_result r) = r
commit_of (pull_request_result r) = r.commit

-- `result.Validate()`
unfoldable pub validate_result : TransactionResult → Done
unfolding validate_commit validate_pull_request
validate_result (commit_result r) = validate_commit r
validate_result (pull_request_result r) = validate_pull_request r
