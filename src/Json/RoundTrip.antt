-- ===== src/Json/RoundTrip.antt =====
-- src/blogin/json.cpp: `parse_json` of what `to_json` prints in the compact style.
pub mod Printed
pub mod Entries
use Prim.Native.String.{String}
use blogin.Common.{
  ℕ, zero, suc, ◌+◌, ◌-◌, ◌*◌, ◌≤◌, ◌<◌, max, Bool, true, false, not, ◌&&◌, ◌||◌, Option, none, [],
  ◌∷◌, ◌++◌, ◌==◌, ltb, if◌then◌else◌, is_empty, same_bytes, length, Bytes, codes, ◌≡◌, refl, ap,
  sym, ◌∙◌, subst, arith, append_assoc, append-nil, length-append, Bool-cases, inl, inr,
}
use blogin.Value.{
  ℤ, pos, negsuc, Value, Items, Members, null, boolean, integer, number, string, array, object, nil,
  cons, end, member, push_back, push, set_member, set, find_member,
}
use blogin.Json.Writer.{
  Doubles, compact, write, write_items, write_members, join_entries, object_text, entry_text, colon,
  line_break, append_json_string, format_int, decimal, to_json,
}
use blogin.Json.Writer.Numbers.{FitsInt64, fits_pos, fits_negsuc, decimal-Unsigned}
use blogin.Json.Parser.{
  Parser, Outcome, ok, M, bind, ◌>>=◌, return, advance, is_blank, skip_whitespace, skip_over,
  finished, consume, fail,
}
use blogin.Json.Parser.Numbers.{
  Gives, NumberEnds, decimal-AllDigits, AllDigits, parse_number-format_int,
}
use blogin.Json.Parser.Steps.{
  at, Parses, Parses-bind, Parses-as, return-Parses, advance-Parses, skip_whitespace-Parses,
  consume-Parses, consume_other-Parses, separator_more-Parses, separator_end-Parses,
  parse_key-Parses, parse_string_value-Parses, null-Parses, true-Parses, false-Parses,
}
use blogin.Json.Parser.Values.{
  is_digit, parse_value, members_loop, items_loop, parse_number, parse_key, separator, parse_json,
  leave, max_depth,
}
use blogin.Yaml.Depth.Nesting.{nesting, nesting_items, nesting_members}
use blogin.Json.RoundTrip.Printed.{
  Opening, Opens, Opens-append, Plain, PlainItems, PlainMembers, skip_whitespace-Opens,
  parse_key-Opens, push_all, set_all, items_onto, members_onto, items_onto-push_back, push_all-onto,
  members_onto-set_member, set_all-onto, printed, printed_items, printed_members,
  write_items-append, write-Opens, members-Opens, members_last, members_more, items_text, SomeItems,
  SomeMembers, items_text-append, length-items_text, length-members_last, length-members_more,
}
use blogin.Json.RoundTrip.Entries.{
  array_body, object_body, leave-Gives, enter_array, enter_object, Numeric, enter_number,
  integer-Numeric, integer-Parses, no_items-Parses, no_members-Parses, some_items-Parses,
  some_members-Parses, items_rest, members_rest, items_rest_more, members_rest_more, items_rest_end,
  members_rest_end, items_round, members_round, word_value-Parses, string_value-Parses,
}

-- What `parse_json` tests at the end.
abbrev at_end : {D : Type 0} → Value D → M (Value D)
at_end result p = if not (finished p) then fail "unexpected trailing content" p else ok result p

module _ {D : Type 0} (doubles : Doubles D) (to_double : Bytes → Option D) where
  mutual
    unfolding write Plain nesting push_all set_all items_onto members_onto object_text set push

    value-Parses :
        (v : Value D) (fuel level depth : ℕ) (rest : Bytes)
        → Plain v
        → NumberEnds rest
        → depth + nesting v ≤ 64
        → 2 * length (printed doubles level v) < fuel
        → Parses (parse_value to_double fuel) v (printed doubles level v ++ rest) rest depth
    value-Parses v zero level depth rest p s n h = absurd (omega arith)
    value-Parses null (suc fuel) level depth rest p s n h =
        (word_value-Parses to_double fuel depth rest).0
    value-Parses (boolean true) (suc fuel) level depth rest p s n h =
        (word_value-Parses to_double fuel depth rest).1
    value-Parses (boolean false) (suc fuel) level depth rest p s n h =
        (word_value-Parses to_double fuel depth rest).2
    value-Parses (integer m) (suc fuel) level depth rest p s n h =
        integer-Parses to_double fuel depth m rest p s
    value-Parses (number x) (suc fuel) level depth rest p s n h = absurd p
    value-Parses (string text) (suc fuel) level depth rest p s n h =
        string_value-Parses to_double fuel depth text rest
    value-Parses (array nil) (suc fuel) level depth rest p s n h =
        enter_array to_double fuel depth (b']' ∷ rest) rest (array nil) (omega arith)
          (no_items-Parses to_double fuel (depth + 1) rest)
    value-Parses (array (cons v vs)) (suc fuel) level depth rest p s n h =
        let text = items_text doubles (level + 1) (cons v vs) (b']' ∷ rest) in
        subst
          (λ t. Parses (parse_value to_double (suc fuel)) (array (cons v vs)) (b'[' ∷ t) rest depth)
          (sym (items_text-append doubles (level + 1) v vs rest))
          (enter_array to_double fuel depth text rest (array (cons v vs)) (omega arith) (
            some_items-Parses to_double fuel (depth + 1) text rest (array (cons v vs))
              (Opens-append (printed doubles (level + 1) v) _
                (write-Opens doubles (level + 1) v p.0))
              (subst (λ r. Parses (items_loop to_double fuel (array nil)) r text rest (depth + 1))
                (push_all-onto nil (cons v vs))
                (items-Parses (cons v vs) fuel (level + 1) (depth + 1) (array nil) rest tt p
                  (omega arith) (omega (arith, length-items_text doubles (level + 1) v vs))))))
    value-Parses (object end) (suc fuel) level depth rest p s n h =
        enter_object to_double fuel depth (b'}' ∷ rest) rest (object end) (omega arith)
          (no_members-Parses to_double fuel (depth + 1) rest)
    value-Parses (object (member k v ms)) (suc fuel) level depth rest p s n h =
        let inner = printed_members doubles (level + 1) (member k v ms) in
        let text = inner ++ (b'}' ∷ rest) in
        subst
          (λ t.
            Parses (parse_value to_double (suc fuel)) (object (member k v ms)) (b'{' ∷ t) rest
              depth)
          (sym (append_assoc inner (b'}' ∷ []) rest))
          (enter_object to_double fuel depth text rest (object (member k v ms)) (omega arith) (
            some_members-Parses to_double fuel (depth + 1) text rest (object (member k v ms))
              (members-Opens doubles (level + 1) k v ms (b'}' ∷ rest))
              (subst
                (λ r. Parses (members_loop to_double fuel (object end)) r text rest (depth + 1))
                (set_all-onto end (member k v ms) p)
                (members-Parses (member k v ms) fuel (level + 1) (depth + 1) end rest tt p
                  (omega arith) (omega (arith, length-append inner (b'}' ∷ [])))))))

    items-Parses :
        (vs : Items D) (fuel level depth : ℕ) (found : Value D) (rest : Bytes)
        → SomeItems vs
        → PlainItems vs
        → depth + nesting_items vs ≤ 64
        → 2 * length (items_text doubles level vs []) + 2 ≤ fuel
        → Parses
            (items_loop to_double fuel found)
            (push_all found vs)
            (items_text doubles level vs (b']' ∷ rest))
            rest
            depth
    items-Parses vs zero level depth found rest some p n h = absurd (omega arith)
    items-Parses nil (suc fuel) level depth found rest some p n h = absurd some
    items-Parses (cons v nil) (suc fuel) level depth found rest some (p, ps) n h =
        items_round to_double fuel depth (printed doubles level v ++ (b']' ∷ rest)) (b']' ∷ rest)
          rest found v (push found v)
          (Opens-append (printed doubles level v) _ (write-Opens doubles level v p))
          (value-Parses v fuel level depth (b']' ∷ rest) p refl (ground arith)
            (omega (arith, length-append (printed doubles level v) [])))
          (items_rest_end to_double fuel depth rest (push found v))
    items-Parses (cons v (cons w ws)) (suc fuel) level depth found rest some (p, ps) n h =
        let next = items_text doubles level (cons w ws) (b']' ∷ rest) in
        items_round to_double fuel depth (printed doubles level v ++ (b',' ∷ next)) (b',' ∷ next)
          rest found v (push_all (push found v) (cons w ws))
          (Opens-append (printed doubles level v) _ (write-Opens doubles level v p))
          (value-Parses v fuel level depth (b',' ∷ next) p refl (ground arith) (
            omega (
              arith,
              length-append (printed doubles level v) (printed_items doubles level (cons w ws) []),
            )))
          (items_rest_more to_double fuel depth next rest (push found v) _
            (Opens-append (printed doubles level w) _ (write-Opens doubles level w ps.0))
            (items-Parses (cons w ws) fuel level depth (push found v) rest tt ps (ground arith) (
              omega (
                arith,
                length-append (printed doubles level v)
                    (printed_items doubles level (cons w ws) []),
              ))))

    members-Parses :
        (ms : Members D) (fuel level depth : ℕ) (before : Members D) (rest : Bytes)
        → SomeMembers ms
        → PlainMembers before ms
        → depth + nesting_members ms ≤ 64
        → 2 * length (printed_members doubles level ms) + 2 ≤ fuel
        → Parses
            (members_loop to_double fuel (object before))
            (set_all (object before) ms)
            (printed_members doubles level ms ++ (b'}' ∷ rest))
            rest
            depth
    members-Parses ms zero level depth before rest some p n h = absurd (omega arith)
    members-Parses end (suc fuel) level depth before rest some p n h = absurd some
    members-Parses (member k v end) (suc fuel) level depth before rest some (f, (p, ps)) n h =
        let found = object (set_member before k v) in
        subst (λ t. Parses (members_loop to_double (suc fuel) (object before)) found t rest depth)
          (sym (members_last doubles level k v (b'}' ∷ rest)))
          (members_round to_double fuel depth k (printed doubles level v ++ (b'}' ∷ rest))
            (b'}' ∷ rest) rest (object before) v found
            (Opens-append (printed doubles level v) _ (write-Opens doubles level v p))
            (value-Parses v fuel level depth (b'}' ∷ rest) p refl (ground arith)
              (omega (arith, length-members_last doubles level k v)))
            (members_rest_end to_double fuel depth rest found))
    members-Parses (member k v (member l w ms)) (suc fuel) level depth before rest some (f, (p, ps))
          n h =
        let later = set_member before k v in
        let next = printed_members doubles level (member l w ms) ++ (b'}' ∷ rest) in
        subst
          (λ t.
            Parses (members_loop to_double (suc fuel) (object before))
              (set_all (object later) (member l w ms)) t rest depth)
          (sym (members_more doubles level k v l w ms (b'}' ∷ rest)))
          (members_round to_double fuel depth k (printed doubles level v ++ (b',' ∷ next))
            (b',' ∷ next) rest (object before) v (set_all (object later) (member l w ms))
            (Opens-append (printed doubles level v) _ (write-Opens doubles level v p))
            (value-Parses v fuel level depth (b',' ∷ next) p refl (ground arith)
              (omega (arith, length-members_more doubles level k v l w ms)))
            (members_rest_more to_double fuel depth next rest (object later) _
              (members-Opens doubles level l w ms (b'}' ∷ rest))
              (members-Parses (member l w ms) fuel level depth later rest tt ps (ground arith)
                (omega (arith, length-members_more doubles level k v l w ms)))))

  finish-Parses : (v : Value D) → Parses (skip_whitespace >>= λ _. at_end v) v [] [] 0
  unfolding skip_whitespace skip_over
  finish-Parses v line column = (at [] line column 0, (refl, (refl, refl)))

  -- A value that is printed in the compact style, its members in their order, is read back as itself,
  -- with nothing left. It has no double, its integers have 64 bits, no object has a key twice, and it
  -- nests at most 64 levels deep.
  pub parse_json-to_json :
      (v : Value D)
      → Plain v
      → nesting v ≤ 64
      → Gives v [] 0 (parse_json to_double (to_json doubles compact false v))
  unfolding parse_json to_json
  parse_json-to_json v p n =
      let text = printed doubles 0 v in
      let fuel = 2 * length text + 1 in
      let value =
        subst (λ t. Parses (parse_value to_double fuel) v t [] 0) (append-nil text)
          (value-Parses v fuel 0 0 [] p tt (omega arith) (omega arith)) in
      Parses-bind skip_whitespace
        (λ _. parse_value to_double fuel >>= λ result. skip_whitespace >>= λ _. at_end result) tt v
        text text [] 0 (skip_whitespace-Opens text 0 (write-Opens doubles 0 v p))
        (Parses-bind (parse_value to_double fuel) (λ result. skip_whitespace >>= λ _. at_end result)
          v v text [] [] 0 value (finish-Parses v))
        1 1
