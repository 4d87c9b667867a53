-- ===== src/Template.antt =====
-- internal/template: the mini-language of templates. A `part`, with its kind, is a data type; texts are
-- bytes. Messages and hints of errors are left out.
pub mod Compile
pub mod Render
pub mod Ends
pub mod Literals
pub mod Valid
pub mod Range
pub mod Uuid
pub mod Static
pub mod Ready
mod Examples
use tracepoint.Base.{ℕ, List, Option}
use tracepoint.Base.Int.{ℤ}
use tracepoint.Base.Text.{Text}

-- A generator with its arguments, parsed.
pub data Generator : Type 0 where
  rand_int : (lo hi : ℤ) → Generator
  rand_string : (length : ℕ) → Generator
  uuid seq now : Generator
  pick : (choices : List Text) → Generator

-- What a token renders to: text, a number, a time, nil, or anything else that a configuration held,
-- with the text that fmt.Sprint gives for it.
pub data Value : Type 0 where
  str : Text → Value
  int : ℤ → Value
  time : ℕ → Value
  nil : Value
  other : Text → Value

pub data Part : Type 0 where
  literal : Text → Part
  var : (name : Text) → Part
  feeder : (name column : Text) → Part
  gen : Generator → Part
  value : Value → Part

pub record Template : Type 0 where
  pub source : Text
  pub parts : List Part
  pub solo : Option Part
