-- ===== src/Template/Examples.antt =====
-- Templates compiled and rendered.
use tracepoint.Base.{ℕ, ◌+◌, ◌%◌, ◌<◌, ◌≡◌, refl, true, none, some, [], ◌∷◌, all, any, arith, leb}
use tracepoint.Base.Int.{pos, negsuc, ◌+ℤ◌, ◌-ℤ◌}
use tracepoint.Base.Int64.{half, add64, sub64, parse_int}
use tracepoint.Base.Decimal.{format_int}
use tracepoint.Base.Text.{
  Text, codes, ◌==◌, contains, equal_fold, upper, upper_byte, trim_space, trim_left, trim_right,
  pieces, keep, fields_func, is_space, cut, cut_pair, read_nat, read_digits,
}
use tracepoint.Errs.{Result, ok}
use tracepoint.Template.{literal, feeder, gen, rand_int, Template}
use tracepoint.Template.Compile.{
  compile, compile_parts, compile_token, compile_generator, compile_rand_int, solo_of, is_static,
}
use tracepoint.Template.Render.{
  Rand, World, done, generate, render, render_parts, render_value, text_of, Context,
}
use tracepoint.Template.Ends.{compile_ends}
use tracepoint.Template.Literals.{compile_sound, is_sound}
use tracepoint.Template.Static.{compile-render}
use tracepoint.Template.Range.{generate-InRange, generate-panics, InRange, span, is_panic}

abbrev query : Text
query = codes "id={{ randInt 3 10 }}&u={{user.name}}"

abbrev query_template : Template
query_template = record {
  source = query;
  parts =
      literal (codes "id=")
      ∷ gen (rand_int (pos 3) (pos 10))
      ∷ literal (codes "&u=")
      ∷ feeder (codes "user") (codes "name")
      ∷ [];
  solo = none;
}

query_compiles : compile query ≡ some (ok query_template)
unfolding compile compile_parts compile_token compile_generator compile_rand_int parse_int read_nat
    read_digits cut_pair cut trim_space trim_left trim_right is_space contains ◌==◌ any equal_fold
    upper upper_byte fields_func pieces keep solo_of
query_compiles = refl

compile_sound_example : all is_sound query_template.parts ≡ true
compile_sound_example = compile_sound query query_template query_compiles

compile_ends_example : (r : Result Template) × (compile (codes "{{ {{x") ≡ some r)
compile_ends_example = compile_ends (codes "{{ {{x")

abbrev plain : Template
plain = record { source = codes "/a}}"; parts = literal (codes "/a}}") ∷ []; solo = none }

plain_compiles : compile (codes "/a}}") ≡ some (ok plain)
unfolding compile compile_parts cut_pair solo_of
plain_compiles = refl

plain-is_static : is_static plain ≡ true
unfolding is_static all
plain-is_static = refl

-- A source that counts up.
abbrev counting : Rand
counting = record { Source = ℕ; int_n = λ n s. (s % n, s + 1); uint64 = λ s. (s, s + 1) }

counting_below : (n : ℕ) (s : counting.Source) → 0 < n → (counting.int_n n s).0 < n
counting_below n s h = grind arith

abbrev world : World counting
world = record { source = 4; seq = 0 }

abbrev context : Context
context = record {
  has_source = true;
  vars = none;
  rows = some (λ source. some (λ column. some (codes "ann")));
}

compile-render_example :
    (render counting (λ t. []) 0 context plain world
      ≡ render_parts counting (λ t. []) 0 context plain.parts [] world)
    × (render counting (λ t. []) 0 context plain world ≡ done (codes "/a}}") world)
compile-render_example =
    compile-render counting (λ t. []) 0 context (codes "/a}}") plain world plain_compiles
      plain-is_static

generate-InRange_example :
    InRange counting (pos 3) (pos 10) (generate counting 0 (rand_int (pos 3) (pos 10)) world)
generate-InRange_example =
    generate-InRange counting counting_below 0 (pos 3) (pos 10) world (omega arith) (omega arith)
      (omega arith) (omega arith)

-- From -1 to the largest int64.
generate-panics_example :
    is_panic counting (generate counting 0 (rand_int (negsuc 0) (pos 9223372036854775807)) world)
    ≡ leb half (span (negsuc 0) (pos 9223372036854775807) + 1)
generate-panics_example =
    generate-panics counting 0 (negsuc 0) (pos 9223372036854775807) world (omega arith)
      (omega arith) (omega arith)

query_renders :
    render counting (λ t. []) 0 context query_template world
    ≡ done (codes "id=7&u=ann") (record { source = 5; seq = 0 })
unfolding render render_parts render_value text_of generate is_static all format_int add64 sub64
    ◌+ℤ◌ ◌-ℤ◌
query_renders = refl
