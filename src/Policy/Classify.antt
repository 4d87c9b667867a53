-- ===== src/Policy/Classify.antt =====
-- internal/policy/classify.go: what a statement or a command does to the data. Texts are bytes; a
-- keyword field that is empty is the empty text.
pub mod Tables
pub mod Strip
pub mod Sql
pub mod Redis
pub mod Laws
pub mod Opaque
mod Examples
use tracepoint.Base.{Bool, true, false, not, ◌&&◌, List, [], ◌∷◌, if◌then◌else◌}
use tracepoint.Base.Text.{Text, ◌==◌}

pub data Op : Type 0 where
  read write : Op

pub record Classification : Type 0 where
  pub op : Op
  pub dangerous : Text
  pub blocking : Text
  pub certain : Bool

abbrev pub is_write : Op → Bool
is_write read = false
is_write write = true

abbrev pub is_empty : Text → Bool
is_empty [] = true
is_empty (_ ∷ _) = false

abbrev pub plain_read : Classification
plain_read = record { op = read; dangerous = []; blocking = []; certain = true }

abbrev pub plain_write : Classification
plain_write = record { op = write; dangerous = []; blocking = []; certain = true }

abbrev pub unknown : Classification
unknown = record { op = write; dangerous = []; blocking = []; certain = false }

abbrev pub danger : Text → Classification
danger verb = record { op = write; dangerous = verb; blocking = []; certain = true }

unfoldable pub merge : Classification → Classification → Classification
merge a b = record {
  op = if is_write b.op then write else a.op;
  dangerous =
      if not (is_empty b.dangerous) && is_empty a.dangerous then b.dangerous else a.dangerous;
  blocking = if not (is_empty b.blocking) && is_empty a.blocking then b.blocking else a.blocking;
  certain = if not b.certain then false else a.certain;
}
