-- ===== src/Events/Lineage.antt =====
-- `LineageRef` of packages/events/models.py: one input of a decision.
use dayjaview.Prelude.{true, Bool, not, ◌&&◌, Option, none, some, String, is_blank}
use dayjaview.Prelude.Exec.{Result, value_error, require}

pub record LineageRef : Type 0 where
  pub kind : String
  pub identifier : String
  pub version : Option String
  pub content_hash : Option String

-- Missing, or with a character that is no white space.
abbrev pub is_text : Option String → Bool
is_text none = true
is_text (some s) = not (is_blank s)

-- `__post_init__`
unfoldable pub check_lineage : LineageRef → Result (Unit {0})
check_lineage l =
    require
      (not (is_blank l.kind)
        && not (is_blank l.identifier)
        && is_text l.version
        && is_text l.content_hash)
      value_error
