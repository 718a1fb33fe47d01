-- ===== src/Codec/Lost/Names.antt =====
-- pkg/serializer/comments/lost.go: the name under which an inline comment is restored.
use libgitops.Prelude.{
  ℕ, ◌≤◌, ◌≡◌, refl, ◌∙◌, sym, ap, ltb, true, false, Option, none, some, List, [], ◌∷◌, nat_beq,
  nat_beq_iff, if◌then◌else◌, arith, Bool-cases, Option-cases, ◌⊎◌, inl, inr,
}
use libgitops.Prelude.Equality.{nat_eq}
use libgitops.Prelude.Dict.{lookup, lookup-insert}
use libgitops.Codec.Lost.{
  Node, LostComment, TrackedKey, Copier, track_key, remember_lost_comments, resolve_name,
}

-- The node is one of the list.
pub data Among (node : Node) : List Node → Type 0 where
  here : {nodes : List Node} → Among node (node ∷ nodes)
  there : {other : Node} {nodes : List Node} → Among node nodes → Among node (other ∷ nodes)

-- The nodes that the new tree does not have, in the order in which the walk visits them.
abbrev pub remember_all : List Node → Copier → Copier
remember_all [] c = c
remember_all (node ∷ nodes) c = remember_all nodes (remember_lost_comments node c)

-- What is tracked for the line of a node after the node.
best : Node → Option TrackedKey → TrackedKey
best node none = record { name = node.value; column = node.column }
best node (some key) =
    if ltb key.column node.column then key else record { name = node.value; column = node.column }

best-low : (node : Node) (old : Option TrackedKey) → (best node old).column ≤ node.column
unfolding best
best-low node none = omega arith
best-low node (some key) = ground arith

best-lower : (node : Node) (key : TrackedKey) → (best node (some key)).column ≤ key.column
unfolding best
best-lower node key = ground arith

lookup-track_key :
    (node : Node) (c : Copier) (line : ℕ)
    → lookup line (track_key node c).tracked_keys ≡ (
        if nat_beq node.line line
        then some (best node (lookup node.line c.tracked_keys))
        else lookup line c.tracked_keys)
unfolding track_key best
lookup-track_key node c line =
    let set =
      lookup-insert line node.line (record { name = node.value; column = node.column })
        c.tracked_keys in
    elim (Option-cases (lookup node.line c.tracked_keys)) [
      | inl new ↦ ground (arith, new, set)
      | inr (old, found) ↦ elim (Bool-cases (ltb old.column node.column)) [
        | inl less ↦
            let same : node.line ≡ line → lookup line c.tracked_keys ≡ some old =
              λ eq. ap (λ l. lookup l c.tracked_keys) (sym eq) ∙ found in
            ground (arith, found, less, same, nat_beq_iff node.line line)
        | inr more ↦ ground (arith, found, more, set)
      ]
    ]

-- A key of the line with at most this column is tracked.
abbrev IsLeft : Copier → ℕ → ℕ → Type 0
IsLeft c line column =
    (key : TrackedKey) × (lookup line c.tracked_keys ≡ some key) × (key.column ≤ column)

IsLeft-remember :
    (node : Node) (c : Copier) → IsLeft (remember_lost_comments node c) node.line node.column
unfolding remember_lost_comments
IsLeft-remember node c = (
  best node (lookup node.line c.tracked_keys),
  lookup-track_key node c node.line
      ∙ ap
          (λ b.
            if b
            then some (best node (lookup node.line c.tracked_keys))
            else lookup node.line c.tracked_keys)
          ((nat_beq_iff node.line node.line).1 refl),
  best-low node (lookup node.line c.tracked_keys),
)

IsLeft-kept :
    (node : Node) (c : Copier) (line column : ℕ)
    → IsLeft c line column
    → IsLeft (remember_lost_comments node c) line column
unfolding remember_lost_comments
IsLeft-kept node c line column (key, found, low) =
    let after = lookup-track_key node c line in
    elim (Bool-cases (nat_beq node.line line)) [
      | inl same ↦
          let here =
            ap (λ l. lookup l c.tracked_keys) ((nat_beq_iff node.line line).0 same) ∙ found in
          (
            best node (some key),
            ground (arith, after, same, ap (best node) here),
            omega (arith, best-lower node key, low),
          )
      | inr other ↦ (key, ground (arith, after, other, found), low)
    ]

IsLeft-all :
    (nodes : List Node) (c : Copier) (line column : ℕ)
    → IsLeft c line column
    → IsLeft (remember_all nodes c) line column
IsLeft-all [] c line column left = left
IsLeft-all (node ∷ nodes) c line column left =
    IsLeft-all nodes (remember_lost_comments node c) line column
      (IsLeft-kept node c line column left)

Among-IsLeft :
    (node : Node) (nodes : List Node) (c : Copier)
    → Among node nodes
    → IsLeft (remember_all nodes c) node.line node.column
Among-IsLeft node (other ∷ nodes) c here =
    IsLeft-all nodes (remember_lost_comments other c) other.line other.column
      (IsLeft-remember other c)
Among-IsLeft node (other ∷ nodes) c (there h) =
    Among-IsLeft node nodes (remember_lost_comments other c) h
Among-IsLeft node [] c h = elim h [ ]

-- The node that a tracked key comes from.
record IsNode (node : Node) (line : ℕ) (key : TrackedKey) : Type 0 where
  on_line : node.line ≡ line
  named : node.value ≡ key.name
  at_column : node.column ≡ key.column

is_new :
    (node : Node) (line : ℕ) (key : TrackedKey)
    → node.line ≡ line
    → record { name = node.value; column = node.column } ≡ key
    → IsNode node line key
is_new node line key on eq = record {
  on_line = on;
  named = ap (λ k. k.name) eq;
  at_column = ap (λ k. k.column) eq;
}

track_key-IsNode :
    (node : Node) (c : Copier) (line : ℕ) (key : TrackedKey)
    → lookup line (remember_lost_comments node c).tracked_keys ≡ some key
    → (lookup line c.tracked_keys ≡ some key) ⊎ IsNode node line key
unfolding remember_lost_comments best
track_key-IsNode node c line key h =
    let after = sym (lookup-track_key node c line) ∙ h in
    elim (Bool-cases (nat_beq node.line line)) [
      | inr other ↦ inl (ground (arith, after, other))
      | inl same ↦
          let on = (nat_beq_iff node.line line).0 same in
          elim (Option-cases (lookup node.line c.tracked_keys)) [
            | inl new ↦ inr (is_new node line key on (ground (arith, after, same, new)))
            | inr (old, found) ↦ elim (Bool-cases (ltb old.column node.column)) [
              | inl less ↦ inl (
                  ap (λ l. lookup l c.tracked_keys) (sym on)
                  ∙ found
                  ∙ ground (arith, after, same, found, less))
              | inr more ↦ inr (is_new node line key on (ground (arith, after, same, found, more)))
            ]
          ]
    ]

tracked-IsNode :
    (nodes : List Node) (c : Copier) (line : ℕ) (key : TrackedKey)
    → lookup line (remember_all nodes c).tracked_keys ≡ some key
    → (lookup line c.tracked_keys ≡ some key)
      ⊎ ((node : Node) × Among node nodes × IsNode node line key)
tracked-IsNode [] c line key h = inl h
tracked-IsNode (node ∷ nodes) c line key h =
    elim (tracked-IsNode nodes (remember_lost_comments node c) line key h) [
      | inr (n, among, is) ↦ inr (n, there among, is)
      | inl before ↦ elim (track_key-IsNode node c line key before) [
        | inl older ↦ inl older
        | inr is ↦ inr (node, here, is)
      ]
    ]

none_before : (line : ℕ) (key : TrackedKey) → lookup line [] ≡ some key → false ≡ true
unfolding lookup
none_before line key h = ground (arith, h)

-- An inline comment is restored under the name of the leftmost node of its line, among all the
-- nodes that are remembered, if nothing was tracked before them.
pub resolve_name-leftmost :
    (nodes : List Node) (c : Copier) (node : Node) (lc : LostComment)
    → c.tracked_keys ≡ []
    → Among node nodes
    → lc.line ≡ some node.line
    → (first : Node) × Among first nodes
      × (first.line ≡ node.line)
      × (resolve_name (remember_all nodes c) lc ≡ first.value)
      × ((other : Node) → Among other nodes → other.line ≡ node.line → first.column ≤ other.column)
unfolding resolve_name
resolve_name-leftmost nodes c node lc empty among inline =
    let (key, found, low) = Among-IsLeft node nodes c among in
    elim (tracked-IsNode nodes c node.line key found) [
      | inl before ↦
          absurd
            (ground (arith, none_before node.line key (sym (ap (lookup node.line) empty) ∙ before)))
      | inr (first, of, is) ↦ (
        first,
        of,
        is.on_line,
        ground (arith, inline, found, is.named),
        λ other at same.
            let (key1, found1, low1) = Among-IsLeft other nodes c at in
            let eq = ap (λ l. lookup l (remember_all nodes c).tracked_keys) same ∙ found in
            ground (arith, eq, found1, low1, is.at_column),
      )
    ]
