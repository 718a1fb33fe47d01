-- ===== src/Tests/Lost.antt =====
-- The comments of two nodes on a line, and of one below, that the new tree does not have.
use libgitops.Prelude.Text.{trim_space}
use libgitops.Codec.Lost.{lost_text}
use libgitops.Prelude.Dict.{insert}
use libgitops.Codec.Lost.{restore_each}
use libgitops.Prelude.Text.{trim_prefix}
use libgitops.Codec.Lost.{}
use libgitops.Codec.Lost.{parse_comments}
use libgitops.Codec.Lost.{lost_of}
use libgitops.Prelude.Dict.{lookup}
use libgitops.Codec.Lost.{track_key}
use libgitops.Prelude.{◌≤◌, ◌≡◌, refl, true, none, some, [], ◌∷◌, ◌++◌}
use libgitops.Prelude.Text.{bytes}
use libgitops.Codec.Lost.{
  Node, LostComment, Copier, remember_lost_comments, restore_lost_comments, copy_field_comments,
  resolve_name,
}
use libgitops.Codec.Lost.Laws.{text_of, remember_lost_comments_lem}
use libgitops.Codec.Lost.Names.{remember_all, Among, here, resolve_name-leftmost}

abbrev field : Node
field = record {
  value = bytes "color";
  line_comment = [];
  head_comment = bytes "# head";
  foot_comment = [];
  line = 3;
  column = 1;
}

abbrev colour : Node
colour = record {
  value = bytes "red";
  line_comment = bytes "# dark";
  head_comment = bytes "# lost";
  foot_comment = [];
  line = 3;
  column = 8;
}

abbrev copier : Copier
copier = record { move_comments_top = true; lost_comments = []; tracked_keys = [] }

abbrev dark : LostComment
dark = record { field_name = bytes "red"; comment = bytes "dark"; line = some 3 }

colour_remembered : (remember_lost_comments colour copier).lost_comments ≡ dark ∷ []
unfolding remember_lost_comments track_key lookup lost_of parse_comments trim_space trim_prefix
colour_remembered = refl

-- The empty text stands for a quoted one.
restored :
    (restore_lost_comments
      (λ text. text)
      (remember_all (colour ∷ field ∷ []) copier)
      field).head_comment
    ≡ bytes "# head"
      ++ ((b'\n' ∷ bytes "Comments lost during file manipulation:")
          ++ ((b'\n' ∷ bytes "# Field color: dark") ++ (b'\n' ∷ bytes "# Field color: head")))
unfolding restore_lost_comments trim_prefix restore_each remember_lost_comments track_key lookup
    insert lost_of parse_comments trim_space lost_text resolve_name
restored = refl

dropped :
    copy_field_comments (some colour) none copier ≡ (none, remember_lost_comments colour copier)
unfolding copy_field_comments
dropped = refl

remember_lost_comments_lem_example :
    (remember_lost_comments colour copier).lost_comments
    ≡ []
      ++ (record {
        field_name = colour.value;
        comment = text_of colour.line_comment;
        line = some colour.line;
      }
          ∷ [])
unfolding trim_space trim_prefix
remember_lost_comments_lem_example = remember_lost_comments_lem colour copier

resolve_name-leftmost_example :
    (first : Node) × Among first (colour ∷ field ∷ [])
    × (first.line ≡ 3)
    × (resolve_name (remember_all (colour ∷ field ∷ []) copier) dark ≡ first.value)
    × ((other : Node)
        → Among other (colour ∷ field ∷ [])
        → other.line ≡ 3
        → first.column ≤ other.column)
resolve_name-leftmost_example =
    resolve_name-leftmost (colour ∷ field ∷ []) copier colour dark refl here refl

-- U+3000, then a tab, a letter and U+0085.
unicode_trimmed : trim_space (0xE3 ∷ 0x80 ∷ 0x80 ∷ 9 ∷ b'a' ∷ 0xC2 ∷ 0x85 ∷ []) ≡ b'a' ∷ []
unfolding trim_space
unicode_trimmed = refl
