-- ===== src/Codec/Lost/Laws.antt =====
-- pkg/serializer/comments/lost.go: which comments are remembered.
use libgitops.Prelude.{
  ◌≡◌, refl, ◌∙◌, ap, true, false, not, none, some, List, [], ◌∷◌, ◌++◌, map, keep_if,
  if◌then◌else◌, arith, Bool-cases, Option-cases, inl, inr,
}
use libgitops.Prelude.Text.{Str, bytes, is_empty, trim_prefix, trim_space}
use libgitops.Prelude.Equality.{nat_eq}
use libgitops.Prelude.Dict.{lookup}
use libgitops.Codec.Lost.{
  Node, LostComment, Copier, track_key, parse_comments, lost_of, remember_lost_comments,
}

-- The text of a comment.
abbrev pub text_of : Str → Str
text_of comment = trim_space (trim_prefix comment (bytes "#"))

-- The entry of a comment that is not inline.
abbrev pub entry_of : Node → Str → LostComment
entry_of node comment = record { field_name = node.value; comment = comment; line = none }

lost_of-later :
    (node : Node) (comments : List Str)
    → lost_of node false none comments
      ≡ map (entry_of node) (keep_if (λ c. not (is_empty c)) comments)
unfolding lost_of
lost_of-later node [] = refl
lost_of-later node (comment ∷ comments) = ground (arith, lost_of-later node comments)

track_key-lost : (node : Node) (c : Copier) → (track_key node c).lost_comments ≡ c.lost_comments
unfolding track_key
track_key-lost node c = elim (Option-cases (lookup node.line c.tracked_keys)) [
  | inl new ↦ ground (arith, new)
  | inr (key, found) ↦ ground (arith, found)
]

lost_of-inline :
    (node : Node) (text text1 : Str) (texts : List Str)
    → is_empty text ≡ false
    → lost_of node true none (text ∷ text1 ∷ texts)
      ≡ record { field_name = node.value; comment = text; line = some node.line } ∷ []
unfolding lost_of
lost_of-inline node text text1 texts h = ground (arith, h)

lost_of-other :
    (node : Node) (text : Str) (texts : List Str)
    → is_empty text ≡ true
    → lost_of node true none (text ∷ texts)
      ≡ map (entry_of node) (keep_if (λ c. not (is_empty c)) texts)
unfolding lost_of
lost_of-other node text texts h = ground (arith, h, lost_of-later node texts)

lost_of-texts :
    (node : Node) (text text1 : Str) (texts : List Str)
    → lost_of node true none (text ∷ text1 ∷ texts) ≡ (
        if is_empty text
        then map (entry_of node) (keep_if (λ t. not (is_empty t)) (text1 ∷ texts))
        else record { field_name = node.value; comment = text; line = some node.line } ∷ [])
lost_of-texts node text text1 texts = elim (Bool-cases (is_empty text)) [
  | inl blank ↦ ground (arith, blank, lost_of-other node text (text1 ∷ texts) blank)
  | inr full ↦ ground (arith, full, lost_of-inline node text text1 texts full)
]

-- Of a node with an inline comment, that comment alone is remembered, with its line: a head and a
-- foot comment of the same node are lost. Of another node, the comments that are not blank are.
pub remember_lost_comments_lem :
    (node : Node) (c : Copier)
    → (remember_lost_comments node c).lost_comments
      ≡ c.lost_comments
        ++ (if is_empty (text_of node.line_comment)
            then map (entry_of node) (
                keep_if
                  (λ t. not (is_empty t))
                  (text_of node.head_comment ∷ text_of node.foot_comment ∷ []))
            else record {
              field_name = node.value;
              comment = text_of node.line_comment;
              line = some node.line;
            }
              ∷ [])
unfolding remember_lost_comments parse_comments
remember_lost_comments_lem node c =
    let inline = text_of node.line_comment in
    let others = text_of node.head_comment ∷ text_of node.foot_comment ∷ [] in
    ap (λ l. l ++ lost_of node true none (inline ∷ others)) (track_key-lost node c)
    ∙ ap (λ l. c.lost_comments ++ l)
        (lost_of-texts node inline (text_of node.head_comment) (text_of node.foot_comment ∷ []))
