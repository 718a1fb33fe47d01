-- ===== src/PullRequest/Laws.antt =====
-- pkg/storage/transaction/pullrequest/github/github.go: which milestone is found, and what is left of
-- a pull request whose milestone is not.
use libgitops.Prelude.{
  ℕ, ◌≡◌, refl, ◌∙◌, ap, Bool, true, false, not, some, List, [], ◌∷◌, ◌++◌, all, arith, Bool-cases,
  Option-cases, inl, inr,
}
use libgitops.Prelude.Text.{Str, str_eq, str_eq_iff, is_empty}
use libgitops.Prelude.Outcome.{ok, err, milestone_not_found}
use libgitops.Transaction.Results.{PullRequestSpec, validate_spec}
use libgitops.PullRequest.{
  Milestone, Client, find_milestone, new_pull_request, get_milestone_id, milestone_id,
  label_pull_request, create_pull_request,
}

-- No milestone has the title.
abbrev pub lacks : Str → List Milestone → Bool
lacks name milestones = all (λ m. not (str_eq m.title name)) milestones

-- The first milestone with the title, and its number.
pub record IsFirst (name : Str) (milestones : List Milestone) (n : ℕ) : Type 0 where
  pub before : List Milestone
  pub milestone : Milestone
  pub rest : List Milestone
  pub split : milestones ≡ before ++ milestone ∷ rest
  pub none_before : lacks name before ≡ true
  pub titled : milestone.title ≡ name
  pub numbered : milestone.number ≡ some n

find_milestone-IsFirst :
    (name : Str) (milestones : List Milestone) (n : ℕ)
    → find_milestone name milestones ≡ ok n
    → IsFirst name milestones n
unfolding find_milestone
find_milestone-IsFirst name [] n h = absurd (ground (arith, h))
find_milestone-IsFirst name (m ∷ ms) n h = elim (Bool-cases (str_eq m.title name)) [
  | inl same ↦ elim (Option-cases m.number) [
    | inl nil ↦ absurd (ground (arith, same, nil, h))
    | inr (k, some_k) ↦ record {
      before = [];
      milestone = m;
      rest = ms;
      split = refl;
      none_before = refl;
      titled = (str_eq_iff m.title name).0 same;
      numbered = some_k ∙ ground (arith, same, some_k, h);
    }
  ]
  | inr other ↦
      let first = find_milestone-IsFirst name ms n (ground (arith, other, h)) in
      record {
        before = m ∷ first.before;
        milestone = first.milestone;
        rest = first.rest;
        split = ap (λ l. m ∷ l) first.split;
        none_before = ground (arith, other, first.none_before);
        titled = first.titled;
        numbered = first.numbered;
      }
]

find_milestone-lacks :
    (name : Str) (milestones : List Milestone)
    → lacks name milestones ≡ true
    → find_milestone name milestones ≡ err milestone_not_found
unfolding find_milestone
find_milestone-lacks name [] h = refl
find_milestone-lacks name (m ∷ ms) h = ground (arith, h, find_milestone-lacks name ms)

module _ {H : Type 0} (client : Client H) (owner repo : Str) where
  -- If the milestones were listed, then an identifier that is found is the number of the first one
  -- with the wanted title.
  pub get_milestone_id-IsFirst :
      (name : Str) (h : H) (milestones : List Milestone) (n : ℕ)
      → client.list_milestones owner repo h ≡ ok milestones
      → get_milestone_id client owner repo name h ≡ ok n
      → IsFirst name milestones n
  unfolding get_milestone_id
  get_milestone_id-IsFirst name h milestones n listed found =
      find_milestone-IsFirst name milestones n (ground (arith, listed, found))

  -- If the specification is valid and names a milestone that the repository does not have, then the
  -- pull request is created all the same, with no label or assignee, and the result is an error.
  pub create_pull_request-lacks :
      (spec : PullRequestSpec) (h created : H) (number : ℕ) (milestones : List Milestone)
      → validate_spec spec ≡ ok tt
      → client.create owner repo (new_pull_request spec) h ≡ (created, ok number)
      → is_empty spec.result.milestone ≡ false
      → client.list_milestones owner repo created ≡ ok milestones
      → lacks spec.result.milestone milestones ≡ true
      → create_pull_request client owner repo spec h ≡ (created, err milestone_not_found)
  unfolding create_pull_request label_pull_request milestone_id get_milestone_id
  create_pull_request-lacks spec h created number milestones valid made wanted listed missing =
      ground (
        arith,
        valid,
        made,
        wanted,
        listed,
        find_milestone-lacks spec.result.milestone milestones missing,
      )
