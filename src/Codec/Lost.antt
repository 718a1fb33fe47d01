-- ===== src/Codec/Lost.antt =====
-- pkg/serializer/comments/lost.go, with the copier and `copyFieldComments` of comments.go in that
-- directory: comments of fields that the new tree does not have. A node of the YAML library is
-- what the package reads and writes of it. The walk over the two trees is not modelled.
pub mod Laws
pub mod Names
use libgitops.Prelude.{
  ℕ, ◌≤◌, ltb, Bool, true, false, not, ◌&&◌, ◌||◌, Option, none, some, List, [], ◌∷◌, ◌++◌, reverse,
  map, nat_beq, if◌then◌else◌,
}
use libgitops.Prelude.Text.{Str, bytes, is_empty, trim_prefix, trim_space}
use libgitops.Prelude.Equality.{nat_eq}
use libgitops.Prelude.Dict.{Dict, lookup, insert}

-- `yaml.Node`
pub record Node : Type 0 where
  pub value : Str
  pub line_comment : Str
  pub head_comment : Str
  pub foot_comment : Str
  pub line : ℕ
  pub column : ℕ

-- `lostComment`, whose line is none for -1.
pub record LostComment : Type 0 where
  pub field_name : Str
  pub comment : Str
  pub line : Option ℕ

pub record TrackedKey : Type 0 where
  pub name : Str
  pub column : ℕ

-- `copier`
pub record Copier : Type 0 where
  pub move_comments_top : Bool
  pub lost_comments : List LostComment
  pub tracked_keys : Dict ℕ TrackedKey

unfoldable pub track_key : Node → Copier → Copier
track_key node c =
    let tracked = record c {
      tracked_keys =
          insert node.line (record { name = node.value; column = node.column }) c.tracked_keys;
    } in
    elim (lookup node.line c.tracked_keys) [
      | none ↦ tracked
      | some key ↦ if ltb key.column node.column then c else tracked
    ]

unfoldable pub parse_comments : Node → List Str
parse_comments node =
    map (λ comment. trim_space (trim_prefix comment (bytes "#")))
      (node.line_comment ∷ node.head_comment ∷ node.foot_comment ∷ [])

-- The loop of `rememberLostComments`, from its first round or from a later one.
unfoldable pub lost_of : Node → Bool → Option ℕ → List Str → List LostComment
lost_of node first line [] = []
lost_of node first (some l) (comment ∷ comments) = []
lost_of node first none (comment ∷ comments) =
    let line = if first then some node.line else none in
    let rest = lost_of node false none comments in
    let rest1 = lost_of node false line comments in
    if is_empty comment
    then rest
    else record { field_name = node.value; comment = comment; line = line } ∷ rest1

unfoldable pub remember_lost_comments : Node → Copier → Copier
remember_lost_comments from c =
    let c1 = track_key from c in
    record c1 { lost_comments = c1.lost_comments ++ lost_of from true none (parse_comments from) }

-- The field name of `restoreLostComments`.
unfoldable pub resolve_name : Copier → LostComment → Str
resolve_name c lc = elim lc.line [
  | none ↦ lc.field_name
  | some line ↦ elim (lookup line c.tracked_keys) [ none ↦ lc.field_name | some key ↦ key.name ]
]

-- The verb %q of package fmt is a parameter.
module _ (quote : Str → Str) where
  -- The text that a round of `restoreLostComments` adds.
  unfoldable pub lost_text : Copier → LostComment → Str
  lost_text c lc =
      ((b'\n' ∷ bytes "# Field ") ++ quote (resolve_name c lc)) ++ (bytes ": " ++ quote lc.comment)

  unfoldable pub restore_each : Copier → Bool → List LostComment → Str → Str
  restore_each c first [] head = head
  restore_each c first (lc ∷ lcs) head =
      let start =
        if first then head ++ (b'\n' ∷ bytes "Comments lost during file manipulation:") else head in
      restore_each c false lcs (start ++ lost_text c lc)

  unfoldable pub restore_lost_comments : Copier → Node → Node
  restore_lost_comments c to = record to {
    head_comment = trim_prefix (restore_each c true c.lost_comments to.head_comment) (b'\n' ∷ []);
  }

-- `copyFieldComments`, which returns the node that it writes to.
unfoldable pub copy_field_comments : Option Node → Option Node → Copier → Option Node × Copier
copy_field_comments none to c = (to, c)
copy_field_comments (some from) none c =
    (none, if c.move_comments_top then remember_lost_comments from c else c)
copy_field_comments (some from) (some to) c = (
  some (record to {
    line_comment = if is_empty to.line_comment then from.line_comment else to.line_comment;
    head_comment = if is_empty to.head_comment then from.head_comment else to.head_comment;
    foot_comment = if is_empty to.foot_comment then from.foot_comment else to.foot_comment;
  }),
  c,
)
