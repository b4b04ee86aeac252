-- ===== src/Json/RoundTrip/Entries.antt =====
-- src/blogin/json.cpp: `parse_value` at the first byte of a value, and the rounds of its loops.
use blogin.Common.{
  ℕ, suc, ◌+◌, ◌-◌, ◌≤◌, true, false, Option, ◌∷◌, ◌++◌, ◌==◌, ltb, if◌then◌else◌, Bytes, codes,
  ◌≡◌, refl, ap, sym, subst, arith,
}
use blogin.Value.{
  ℤ, pos, negsuc, Value, null, boolean, integer, string, array, object, nil, end, push, set,
}
use blogin.Json.Writer.{append_json_string, format_int, decimal}
use blogin.Json.Writer.Numbers.{FitsInt64, decimal-Unsigned}
use blogin.Json.Parser.{
  Outcome, M, bind, ◌>>=◌, return, advance, is_blank, skip_whitespace, consume,
}
use blogin.Json.Parser.Numbers.{
  Gives, NumberEnds, decimal-AllDigits, AllDigits, parse_number-format_int,
}
use blogin.Json.Parser.Steps.{
  at, Parses, Parses-bind, Parses-as, return-Parses, advance-Parses, skip_whitespace-Parses,
  consume-Parses, consume_other-Parses, separator_more-Parses, separator_end-Parses,
  parse_string_value-Parses, null-Parses, true-Parses, false-Parses,
}
use blogin.Json.Parser.Values.{
  is_digit, parse_value, members_loop, items_loop, parse_number, parse_key, separator, leave,
  max_depth,
}
use blogin.Json.RoundTrip.Printed.{Opens, skip_whitespace-Opens, parse_key-Opens}

module _ {D : Type 0} (to_double : Bytes → Option D) where
  abbrev pub array_body : ℕ → M (Value D)
  array_body fuel = advance >>= λ _. skip_whitespace >>= λ _. consume b']' >>= λ closed.
      if closed then return (array nil) else items_loop to_double fuel (array nil)

  abbrev pub object_body : ℕ → M (Value D)
  object_body fuel = advance >>= λ _. skip_whitespace >>= λ _. consume b'}' >>= λ closed.
      if closed then return (object end) else members_loop to_double fuel (object end)

  pub leave-Gives :
      (v : Value D) (rest : Bytes) (depth : ℕ) (o : Outcome (Value D))
      → Gives v rest (depth + 1) o
      → Gives v rest depth (bind o leave)
  leave-Gives v rest depth o (q, (e, (r, g))) =
      (record q { depth = q.depth - 1 }, (ap (λ x. bind x leave) e, (r, omega arith)))

  pub enter_array :
      (fuel depth : ℕ) (text rest : Bytes) (v : Value D)
      → depth + 1 ≤ 64
      → Parses (array_body fuel) v (b'[' ∷ text) rest (depth + 1)
      → Parses (parse_value to_double (suc fuel)) v (b'[' ∷ text) rest depth
  unfolding parse_value
  enter_array fuel depth text rest v h body line column =
      let shallow : ltb max_depth (depth + 1) ≡ false = ground arith in
      rw shallow (leave-Gives v rest depth _ (body line column))

  pub enter_object :
      (fuel depth : ℕ) (text rest : Bytes) (v : Value D)
      → depth + 1 ≤ 64
      → Parses (object_body fuel) v (b'{' ∷ text) rest (depth + 1)
      → Parses (parse_value to_double (suc fuel)) v (b'{' ∷ text) rest depth
  unfolding parse_value
  enter_object fuel depth text rest v h body line column =
      let shallow : ltb max_depth (depth + 1) ≡ false = ground arith in
      rw shallow (leave-Gives v rest depth _ (body line column))

  -- The byte starts a number.
  abbrev pub Numeric : ℕ → Type 0
  Numeric c =
      ((c == b'{') ≡ false)
      × (((c == b'[') ≡ false)
          × (((c == b'"') ≡ false)
              × (((c == b't') ≡ false) × (((c == b'f') ≡ false) × ((c == b'n') ≡ false)))))

  pub enter_number :
      (fuel depth c : ℕ) (cs rest : Bytes) (v : Value D)
      → Numeric c
      → Parses (parse_number to_double) v (c ∷ cs) rest depth
      → Parses (parse_value to_double (suc fuel)) v (c ∷ cs) rest depth
  unfolding parse_value
  enter_number fuel depth c cs rest v (a, (b, (e, (f, (g, h))))) body line column =
      rw (a, b, e, f, g, h) (body line column)

  pub integer-Numeric : (n : ℤ) → (c : ℕ) × ((cs : Bytes) × ((format_int n ≡ c ∷ cs) × Numeric c))
  unfolding format_int
  integer-Numeric (pos n) =
      let (c, (cs, (e, h))) = decimal-Unsigned n in
      let digit : is_digit c ≡ true = (subst AllDigits e (decimal-AllDigits n)).0 in
      (
        c,
        (
          cs,
          (
            e,
            (
              ground arith,
              (ground arith, (ground arith, (ground arith, (ground arith, ground arith)))),
            ),
          ),
        ),
      )
  integer-Numeric (negsuc n) =
      (b'-', (decimal (n + 1), (refl, (refl, (refl, (refl, (refl, (refl, refl))))))))

  pub integer-Parses :
      (fuel depth : ℕ) (n : ℤ) (rest : Bytes)
      → FitsInt64 n
      → NumberEnds rest
      → Parses (parse_value to_double (suc fuel)) (integer n) (format_int n ++ rest) rest depth
  integer-Parses fuel depth n rest fits s =
      let (c, (cs, (e, numeric))) = integer-Numeric n in
      let whole : format_int n ++ rest ≡ c ∷ (cs ++ rest) = ap (λ t. t ++ rest) e in
      subst (λ t. Parses (parse_value to_double (suc fuel)) (integer n) t rest depth) (sym whole)
        (enter_number fuel depth c (cs ++ rest) rest (integer n) numeric (λ line column.
          parse_number-format_int to_double n rest (at (c ∷ (cs ++ rest)) line column depth) fits s
            (sym whole)))

  pub no_items-Parses :
      (fuel depth : ℕ) (rest : Bytes)
      → Parses (array_body fuel) (array nil) (codes "[]" ++ rest) rest depth
  unfolding is_blank
  no_items-Parses fuel depth rest =
      Parses-bind advance _ b'[' (array nil) (codes "[]" ++ rest) (b']' ∷ rest) rest depth
        (advance-Parses depth b'[' (b']' ∷ rest))
        (Parses-bind skip_whitespace _ tt (array nil) (b']' ∷ rest) (b']' ∷ rest) rest depth
          (skip_whitespace-Parses depth b']' rest refl)
          (Parses-bind (consume b']') _ true (array nil) (b']' ∷ rest) rest rest depth
            (consume-Parses depth b']' rest) (return-Parses depth (array nil) rest)))

  pub no_members-Parses :
      (fuel depth : ℕ) (rest : Bytes)
      → Parses (object_body fuel) (object end) (codes "{}" ++ rest) rest depth
  unfolding is_blank
  no_members-Parses fuel depth rest =
      Parses-bind advance _ b'{' (object end) (codes "{}" ++ rest) (b'}' ∷ rest) rest depth
        (advance-Parses depth b'{' (b'}' ∷ rest))
        (Parses-bind skip_whitespace _ tt (object end) (b'}' ∷ rest) (b'}' ∷ rest) rest depth
          (skip_whitespace-Parses depth b'}' rest refl)
          (Parses-bind (consume b'}') _ true (object end) (b'}' ∷ rest) rest rest depth
            (consume-Parses depth b'}' rest) (return-Parses depth (object end) rest)))

  pub some_items-Parses :
      (fuel depth : ℕ) (text rest : Bytes) (v : Value D)
      → Opens text
      → Parses (items_loop to_double fuel (array nil)) v text rest depth
      → Parses (array_body fuel) v (b'[' ∷ text) rest depth
  some_items-Parses fuel depth text rest v (c, (cs, (e, (b, (o, k))))) =
      subst
        (λ t.
          Parses (items_loop to_double fuel (array nil)) v t rest depth
          → Parses (array_body fuel) v (b'[' ∷ t) rest depth)
        (sym e)
        (λ body.
          Parses-bind advance _ b'[' v (b'[' ∷ (c ∷ cs)) (c ∷ cs) rest depth
            (advance-Parses depth b'[' (c ∷ cs))
            (Parses-bind skip_whitespace _ tt v (c ∷ cs) (c ∷ cs) rest depth
              (skip_whitespace-Parses depth c cs b)
              (Parses-bind (consume b']') _ false v (c ∷ cs) (c ∷ cs) rest depth
                (consume_other-Parses depth b']' c cs o) body)))

  pub some_members-Parses :
      (fuel depth : ℕ) (text rest : Bytes) (v : Value D)
      → Opens text
      → Parses (members_loop to_double fuel (object end)) v text rest depth
      → Parses (object_body fuel) v (b'{' ∷ text) rest depth
  some_members-Parses fuel depth text rest v (c, (cs, (e, (b, (o, k))))) =
      subst
        (λ t.
          Parses (members_loop to_double fuel (object end)) v t rest depth
          → Parses (object_body fuel) v (b'{' ∷ t) rest depth)
        (sym e)
        (λ body.
          Parses-bind advance _ b'{' v (b'{' ∷ (c ∷ cs)) (c ∷ cs) rest depth
            (advance-Parses depth b'{' (c ∷ cs))
            (Parses-bind skip_whitespace _ tt v (c ∷ cs) (c ∷ cs) rest depth
              (skip_whitespace-Parses depth c cs b)
              (Parses-bind (consume b'}') _ false v (c ∷ cs) (c ∷ cs) rest depth
                (consume_other-Parses depth b'}' c cs k) body)))

  -- What the loops do behind an entry.
  abbrev pub items_rest : ℕ → Value D → M (Value D)
  items_rest fuel found = skip_whitespace >>= λ _.
      separator b']' "trailing comma before ']'" "expected ',' or ']' in an array" >>= λ more.
      if more then items_loop to_double fuel found else return found

  abbrev pub members_rest : ℕ → Value D → M (Value D)
  members_rest fuel found = skip_whitespace >>= λ _.
      separator b'}' "trailing comma before '}'" "expected ',' or '}' in an object" >>= λ more.
      if more then members_loop to_double fuel found else return found

  pub items_rest_more :
      (fuel depth : ℕ) (next rest : Bytes) (found v : Value D)
      → Opens next
      → Parses (items_loop to_double fuel found) v next rest depth
      → Parses (items_rest fuel found) v (b',' ∷ next) rest depth
  unfolding is_blank
  items_rest_more fuel depth next rest found v (c, (cs, (e, (b, (o, k))))) =
      subst
        (λ t.
          Parses (items_loop to_double fuel found) v t rest depth
          → Parses (items_rest fuel found) v (b',' ∷ t) rest depth)
        (sym e)
        (λ body.
          Parses-bind skip_whitespace _ tt v (b',' ∷ (c ∷ cs)) (b',' ∷ (c ∷ cs)) rest depth
            (skip_whitespace-Parses depth b',' (c ∷ cs) refl)
            (Parses-bind (separator b']' _ _) _ true v (b',' ∷ (c ∷ cs)) (c ∷ cs) rest depth
              (separator_more-Parses depth b']' _ _ c cs b o) body))

  pub members_rest_more :
      (fuel depth : ℕ) (next rest : Bytes) (found v : Value D)
      → Opens next
      → Parses (members_loop to_double fuel found) v next rest depth
      → Parses (members_rest fuel found) v (b',' ∷ next) rest depth
  unfolding is_blank
  members_rest_more fuel depth next rest found v (c, (cs, (e, (b, (o, k))))) =
      subst
        (λ t.
          Parses (members_loop to_double fuel found) v t rest depth
          → Parses (members_rest fuel found) v (b',' ∷ t) rest depth)
        (sym e)
        (λ body.
          Parses-bind skip_whitespace _ tt v (b',' ∷ (c ∷ cs)) (b',' ∷ (c ∷ cs)) rest depth
            (skip_whitespace-Parses depth b',' (c ∷ cs) refl)
            (Parses-bind (separator b'}' _ _) _ true v (b',' ∷ (c ∷ cs)) (c ∷ cs) rest depth
              (separator_more-Parses depth b'}' _ _ c cs b k) body))

  pub items_rest_end :
      (fuel depth : ℕ) (rest : Bytes) (found : Value D)
      → Parses (items_rest fuel found) found (b']' ∷ rest) rest depth
  unfolding is_blank
  items_rest_end fuel depth rest found =
      Parses-bind skip_whitespace _ tt found (b']' ∷ rest) (b']' ∷ rest) rest depth
        (skip_whitespace-Parses depth b']' rest refl)
        (Parses-bind (separator b']' _ _) _ false found (b']' ∷ rest) rest rest depth
          (separator_end-Parses depth b']' _ _ rest refl) (return-Parses depth found rest))

  pub members_rest_end :
      (fuel depth : ℕ) (rest : Bytes) (found : Value D)
      → Parses (members_rest fuel found) found (b'}' ∷ rest) rest depth
  unfolding is_blank
  members_rest_end fuel depth rest found =
      Parses-bind skip_whitespace _ tt found (b'}' ∷ rest) (b'}' ∷ rest) rest depth
        (skip_whitespace-Parses depth b'}' rest refl)
        (Parses-bind (separator b'}' _ _) _ false found (b'}' ∷ rest) rest rest depth
          (separator_end-Parses depth b'}' _ _ rest refl) (return-Parses depth found rest))

  pub items_round :
      (fuel depth : ℕ) (text middle rest : Bytes) (found v result : Value D)
      → Opens text
      → Parses (parse_value to_double fuel) v text middle depth
      → Parses (items_rest fuel (push found v)) result middle rest depth
      → Parses (items_loop to_double (suc fuel) found) result text rest depth
  unfolding parse_value
  items_round fuel depth text middle rest found v result starts first later =
      Parses-as (items_loop to_double (suc fuel) found)
        (skip_whitespace >>= λ _.
          parse_value to_double fuel >>= λ item. items_rest fuel (push found item))
        result text rest depth (λ line column. refl)
        (Parses-bind skip_whitespace _ tt result text text rest depth
          (skip_whitespace-Opens text depth starts)
          (Parses-bind (parse_value to_double fuel) (λ item. items_rest fuel (push found item)) v
            result text middle rest depth first later))

  pub members_round :
      (fuel depth : ℕ) (key text middle rest : Bytes) (found v result : Value D)
      → Opens text
      → Parses (parse_value to_double fuel) v text middle depth
      → Parses (members_rest fuel (set found key v)) result middle rest depth
      → Parses
          (members_loop to_double (suc fuel) found)
          result
          (append_json_string key ++ (b':' ∷ text))
          rest
          depth
  unfolding parse_value
  members_round fuel depth key text middle rest found v result starts first later =
      let whole = append_json_string key ++ (b':' ∷ text) in
      Parses-as (members_loop to_double (suc fuel) found)
        (parse_key >>= λ k.
          parse_value to_double fuel >>= λ item. members_rest fuel (set found k item))
        result whole rest depth (λ line column. refl)
        (Parses-bind parse_key _ key result whole text rest depth
          (parse_key-Opens key text depth starts)
          (Parses-bind (parse_value to_double fuel) (λ item. members_rest fuel (set found key item))
            v result text middle rest depth first later))

  pub word_value-Parses :
      (fuel depth : ℕ) (rest : Bytes)
      → Parses (parse_value to_double (suc fuel)) null (codes "null" ++ rest) rest depth
        × Parses (parse_value to_double (suc fuel)) (boolean true) (codes "true" ++ rest) rest depth
        × Parses
            (parse_value to_double (suc fuel))
            (boolean false)
            (codes "false" ++ rest)
            rest
            depth
  unfolding parse_value
  word_value-Parses fuel depth rest = (
    λ line column. null-Parses depth rest line column,
    λ line column. true-Parses depth rest line column,
    λ line column. false-Parses depth rest line column,
  )

  pub string_value-Parses :
      (fuel depth : ℕ) (text rest : Bytes)
      → Parses
          (parse_value to_double (suc fuel))
          (string text)
          (append_json_string text ++ rest)
          rest
          depth
  unfolding parse_value append_json_string
  string_value-Parses fuel depth text rest line column =
      parse_string_value-Parses depth text rest line column
