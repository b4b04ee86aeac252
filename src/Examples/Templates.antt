-- ===== src/Examples/Templates.antt =====
-- Tests of what templates use, and the theorems on it at inputs that meet their hypotheses.
use blogin.Common.{
  ◌↔◌, ◌⊎◌, ◌++◌, ℕ, ◌+◌, ◌-◌, ◌≡◌, refl, codes, Bytes, true, false, Option, none, some, [], ◌∷◌,
  ◌==◌, ltb, All, same_bytes,
}
use blogin.Common.Maps.{find_key, has_key, assign}
use blogin.Common.Steps.{Step, done, Ends}
use blogin.Value.{Value, pos, integer, string, object, end, member}
use blogin.Json.Writer.{Doubles, to_json}
use blogin.Json.Parser.Values as Json
use blogin.Json.Parser.Values.{digits_value}
use blogin.Shortcode.{expand, escape_attribute, knows, find_template, is_builtin, escaped_byte}
use blogin.Shortcode.Safe.{Safe}
use blogin.Shortcode.Expand.{expand_unknown}
use blogin.ViewContext.{
  ViewContext, Recording, begin_recording, end_recording, set_local, restore_locals, take_locals,
  lookup_local, lookup, replay, edit_distance, distance_rows, distance_row,
}
use blogin.Expression.Parser.{max_depth}
use blogin.Expression.Grammar
use blogin.Expression.Operators
use blogin.Expression.Evaluate
use blogin.Expression.Parser as Parsing
use blogin.ViewContext as Views
use blogin.Value.{find_member, as_number, set, get_or_null, truthy, same_int, as_string}
use blogin.Text.{trim, is_space}
use blogin.Common.{starts_with}
use blogin.Nav.{
  Folders, folder, no_folders, Options, NavNodes, Section, build_tree, find, is_current,
}
use blogin.Nav.Find.{preorder, first_at, find-first_at, is_current_iff}
use blogin.Expression.{node, literal_string, push_node, tallest_of, tallest_child}
use blogin.Expression.Grammar.{parse_expression}
use blogin.Expression.Quote.{quote, escaped, parse_expression-quote}
use blogin.Expression.Height.{Fits}
use blogin.Expression.Height.Tree.{parse_expression-Fits}
use blogin.Expression.Operators.{Arithmetic, Refusal}
use blogin.Expression.Evaluate.{evaluate}
use blogin.Expression.Evaluate.Levels.{evaluate-parse_expression}

abbrev no_doubles : Doubles ℕ
no_doubles = record {
  is_finite = λ x. false;
  is_zero = λ x. false;
  positive_zero = 0;
  format_double = λ x. [];
}

abbrev whole_doubles : Arithmetic ℕ
whole_doubles = record {
  widen = λ n. 0;
  plus = λ a b. a + b;
  minus = λ a b. a - b;
  below = λ a b. ltb a b;
  equivalent = λ a b. a == b;
  is_zero = λ a. a == 0;
  zero_double = 0;
  format_double = λ x. [];
}

abbrev no_number : Bytes → Option ℕ
no_number text = none

abbrev page : ViewContext ℕ
page = record {
  values =
      (codes "title", string (codes "Hi"))
      ∷ ((codes "post", object (member (codes "size") (integer (pos 3)) end)) ∷ []);
  locals = (codes "n", integer (pos 4)) ∷ [];
  functions = [];
  recordings = [];
  read_names = [];
  replayable = true;
}

abbrev value_of : Step (ViewContext ℕ) Refusal (Value ℕ) → Option (Value ℕ)
value_of (done value context) = some value
value_of _ = none

abbrev run : Bytes → Option (Value ℕ)
run source = elim (parse_expression no_number 0 source 1 1) [
  | done tree p ↦ value_of (evaluate whole_doubles no_doubles 64 tree page)
  | _ ↦ none
]

run_sum : run (codes " post.size + 2 - $n == 1 && title ") ≡ some (string (codes "Hi"))
unfolding Grammar.parse_number Grammar.parse_word Grammar.parse_variable Grammar.closed_by
    Grammar.parse_group Grammar.parse_block Grammar.map_entry Grammar.map_loop Grammar.parse_map
    Grammar.parse_named Grammar.parse_argument Grammar.arguments_loop Grammar.parse_arguments
    Grammar.parse_call Grammar.parse_member Grammar.postfix_loop Grammar.parse_primary
    Grammar.parse_postfix Grammar.parse_unary Grammar.chain Grammar.level Grammar.parse_additive
    Grammar.parse_comparison Grammar.parse_and Grammar.parse_or Grammar.parse_all
    Grammar.parse_expression Parsing.is_name_start Parsing.is_digit Parsing.is_name_character
    Parsing.run_length Parsing.skip_spaces Parsing.word_goes_on Parsing.consume Parsing.first_token
    Parsing.read_name Parsing.grown_at Parsing.nested Parsing.string_from Parsing.parse_string
    Parsing.number_length Parsing.looks_like_map Operators.difference Operators.add_int
    Operators.subtract_int Operators.order_of Operators.same_value Operators.compare_values
    Operators.to_text Operators.list_member Operators.joined_or_sum Operators.added
    Operators.subtracted Operators.applied Evaluate.read_or Evaluate.read_variable
    Evaluate.read_name Evaluate.read_member Evaluate.evaluate_binary Evaluate.evaluate_argument
    Evaluate.evaluate_arguments Evaluate.call_function Evaluate.evaluate_call
    Evaluate.evaluate_entries Evaluate.evaluate_shape Evaluate.evaluate Operators.is_int64
    Json.from_chars push_node tallest_of tallest_child find_key starts_with trim is_space set
    get_or_null find_member Views.lookup Views.lookup_local Views.record_read truthy same_int
    as_string same_bytes as_number
run_sum = refl

evaluate-parse_expression_example :
    Ends
      (λ tree p. Ends (λ a c. Unit {0}) (evaluate whole_doubles no_doubles max_depth tree page))
      (parse_expression no_number 0 (codes "!(n + 2 < 3) || { a: title }.a") 1 1)
evaluate-parse_expression_example =
    evaluate-parse_expression whole_doubles no_doubles no_number
      (codes "!(n + 2 < 3) || { a: title }.a") 1 1 page

parse_expression-Fits_example :
    Ends (λ tree p. Fits tree) (parse_expression no_number 0 (codes "f(:a<b>, {c: 'd'}).e") 3 7)
parse_expression-Fits_example = parse_expression-Fits no_number 0 (codes "f(:a<b>, {c: 'd'}).e") 3 7

distance_two : edit_distance (codes "titel") (codes "title") ≡ 2
unfolding edit_distance distance_rows distance_row
distance_two = refl

-- A local that the fragment shadows and gives back stays among the bound names, since the outer one
-- has its name: what the fragment then reads of the outer one is in no key.
shadowed_local :
    (end_recording
      (lookup_local no_doubles
        (restore_locals
          (set_local (begin_recording page) (codes "n") (integer (pos 5)))
          page.locals)
        (codes "n")).1).0
    ≡ []
unfolding begin_recording set_local Views.note_bound restore_locals Views.prune_bound
    Views.still_bound lookup_local Views.record_read Views.read_in has_key find_key same_bytes
    end_recording Views.key_of
shadowed_local = refl

-- A loop inside a loop takes the locals and gives them back: the variable of the outer loop is bound
-- no more, and a read of it is in the key.
abbrev looping : ViewContext ℕ
looping = set_local (begin_recording page) (codes "x") (integer (pos 5))

rebound_local :
    (end_recording
      (lookup_local no_doubles
        (restore_locals (take_locals looping).1 (take_locals looping).0)
        (codes "x")).1).0
    ≡ codes "x=5;"
unfolding begin_recording set_local Views.note_bound take_locals restore_locals Views.prune_bound
    Views.still_bound lookup_local Views.record_read Views.read_in has_key find_key same_bytes
    end_recording Views.key_of assign Views.append_read to_json
rebound_local = refl

expand_unknown_example :
    (expand [] (codes "nope") [] (codes "{{<nope>}}") ≡ codes "{{&lt;nope&gt;}}")
    × All Safe (expand [] (codes "nope") [] (codes "{{<nope>}}"))
unfolding escape_attribute knows find_template is_builtin same_bytes escaped_byte
expand_unknown_example = expand_unknown [] (codes "nope") [] (codes "{{<nope>}}") refl

abbrev guide_folders : Folders
guide_folders =
    folder (codes "blog") (folder (codes "old") no_folders no_folders)
      (folder (codes "docs") no_folders no_folders)

abbrev menu_options : Options
menu_options = record { clean_urls = true; url_prefix = [] }

abbrev menu : NavNodes
menu = build_tree [] menu_options guide_folders

find-first_at_example : find menu (codes "blog/old") ≡ first_at (codes "blog/old") (preorder menu)
find-first_at_example = find-first_at menu (codes "blog/old")

abbrev blog_section : Section
blog_section = record {
  name = codes "blog";
  label = codes "Blog";
  path = codes "blog";
  url = codes "/blog";
  order = pos 0;
}

is_current_iff_example : (is_current blog_section (codes "blog/old") ≡ true) ↔ (
    (codes "blog/old" ≡ codes "blog")
    ⊎ ((rest : Bytes) × (codes "blog/old" ≡ codes "blog" ++ (b'/' ∷ rest))))
is_current_iff_example = is_current_iff blog_section (codes "blog/old")

parse_expression-quote_example :
    parse_expression no_number 0 (codes "\"a \\\"b\\\" or\"") 2 5
    ≡ done
        (node (literal_string (codes "a \"b\" or")) 1 2 17)
        (record { rest = []; line = 2; column = 17; depth = 0 })
unfolding quote escaped
parse_expression-quote_example = parse_expression-quote no_number 0 (codes "a \"b\" or") 2 5
