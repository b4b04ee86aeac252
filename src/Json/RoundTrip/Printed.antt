-- ===== src/Json/RoundTrip/Printed.antt =====
-- src/blogin/json.cpp: the text that `write` prints in the compact style, as the parser meets it.
use blogin.Common.{
  ℕ, ◌+◌, ◌≤◌, true, false, none, [], ◌∷◌, ◌++◌, ◌==◌, same_bytes, length, Bytes, ◌≡◌, refl, ap,
  sym, ◌∙◌, subst, arith, append_assoc, length-append, Bool-cases, inl, inr,
}
use blogin.Value.{
  pos, negsuc, Value, Items, Members, null, boolean, integer, number, string, array, object, nil,
  cons, end, member, push_back, push, set_member, set, find_member,
}
use blogin.Json.Writer.{
  Doubles, compact, write, write_items, write_members, join_entries, object_text, entry_text, colon,
  line_break, append_json_string, format_int,
}
use blogin.Json.Writer.Numbers.{FitsInt64, decimal-Unsigned}
use blogin.Json.Parser.{is_blank, skip_whitespace}
use blogin.Json.Parser.Numbers.{decimal-AllDigits, AllDigits}
use blogin.Json.Parser.Steps.{Parses, skip_whitespace-Parses, parse_key-Parses}
use blogin.Json.Parser.Values.{is_digit, parse_key}

-- The byte starts a value or a key: no blank and no closing bracket.
abbrev pub Opening : ℕ → Type 0
Opening c = (is_blank c ≡ false) × (((c == b']') ≡ false) × ((c == b'}') ≡ false))

abbrev pub Opens : Bytes → Type 0
Opens text = (c : ℕ) × ((cs : Bytes) × ((text ≡ c ∷ cs) × Opening c))

pub Opens-append : (text rest : Bytes) → Opens text → Opens (text ++ rest)
Opens-append text rest (c, (cs, (e, o))) = (c, (cs ++ rest, (ap (λ t. t ++ rest) e, o)))

unfoldable mutual
  -- No double, integers of 64 bits, and in no object a key twice.
  pub Plain : {D : Type 0} → Value D → Type 0
  Plain null = Unit {0}
  Plain (boolean b) = Unit {0}
  Plain (integer n) = FitsInt64 n
  Plain (number x) = ⊥
  Plain (string s) = Unit {0}
  Plain (array vs) = PlainItems vs
  Plain (object ms) = PlainMembers end ms

  pub PlainItems : {D : Type 0} → Items D → Type 0
  PlainItems nil = Unit {0}
  PlainItems (cons v vs) = Plain v × PlainItems vs

  -- The members behind `before`.
  pub PlainMembers : {D : Type 0} → Members D → Members D → Type 0
  PlainMembers before end = Unit {0}
  PlainMembers before (member key v ms) =
      (find_member before key ≡ none) × (Plain v × PlainMembers (set_member before key v) ms)

pub skip_whitespace-Opens :
    (text : Bytes) (depth : ℕ) → Opens text → Parses skip_whitespace tt text text depth
skip_whitespace-Opens text depth (c, (cs, (e, (b, o)))) =
    subst (λ t. Parses skip_whitespace tt t t depth) (sym e) (skip_whitespace-Parses depth c cs b)

pub parse_key-Opens :
    (key text : Bytes) (depth : ℕ)
    → Opens text
    → Parses parse_key key (append_json_string key ++ (b':' ∷ text)) text depth
parse_key-Opens key text depth (c, (cs, (e, (b, o)))) =
    subst (λ t. Parses parse_key key (append_json_string key ++ (b':' ∷ t)) t depth) (sym e)
      (parse_key-Parses depth key c cs b)

-- The values that the loops build up.
unfoldable pub push_all : {D : Type 0} → Value D → Items D → Value D
push_all found nil = found
push_all found (cons v vs) = push_all (push found v) vs

unfoldable pub set_all : {D : Type 0} → Value D → Members D → Value D
set_all found end = found
set_all found (member key v ms) = set_all (set found key v) ms

module _ {D : Type 0} where
  unfoldable pub items_onto : Items D → Items D → Items D
  items_onto nil vs = vs
  items_onto (cons b bs) vs = cons b (items_onto bs vs)

  unfoldable pub members_onto : Members D → Members D → Members D
  members_onto end ms = ms
  members_onto (member k b bs) ms = member k b (members_onto bs ms)

  pub items_onto-push_back :
      (before : Items D) (v : Value D) (vs : Items D)
      → items_onto (push_back before v) vs ≡ items_onto before (cons v vs)
  unfolding push_back items_onto
  items_onto-push_back nil v vs = refl
  items_onto-push_back (cons b bs) v vs = ap (cons b) (items_onto-push_back bs v vs)

  pub push_all-onto :
      (before vs : Items D) → push_all (array before) vs ≡ array (items_onto before vs)
  unfolding push_all items_onto push
  push_all-onto before nil = ap array (sym (onto-nil before))
    where
      onto-nil : (bs : Items D) → items_onto bs nil ≡ bs
      onto-nil nil = refl
      onto-nil (cons b bs) = ap (cons b) (onto-nil bs)
  push_all-onto before (cons v vs) =
      push_all-onto (push_back before v) vs ∙ ap array (items_onto-push_back before v vs)

  pub members_onto-set_member :
      (before : Members D) (key : Bytes) (v : Value D) (ms : Members D)
      → find_member before key ≡ none
      → members_onto (set_member before key v) ms ≡ members_onto before (member key v ms)
  unfolding set_member find_member members_onto
  members_onto-set_member end key v ms h = refl
  members_onto-set_member (member k b bs) key v ms h = elim (Bool-cases (same_bytes k key)) [
    | inl e ↦ absurd (ground arith)
    | inr e ↦ rw e (ap (member k b) (members_onto-set_member bs key v ms (ground arith)))
  ]

  pub set_all-onto :
      (before ms : Members D)
      → PlainMembers before ms
      → set_all (object before) ms ≡ object (members_onto before ms)
  unfolding set_all members_onto PlainMembers set
  set_all-onto before end h = ap object (sym (onto-end before))
    where
      onto-end : (bs : Members D) → members_onto bs end ≡ bs
      onto-end end = refl
      onto-end (member k b bs) = ap (member k b) (onto-end bs)
  set_all-onto before (member key v ms) (fresh, (p, ps)) =
      set_all-onto (set_member before key v) ms ps
      ∙ ap object (members_onto-set_member before key v ms fresh)

  abbrev pub SomeItems : Items D → Type 0
  SomeItems nil = ⊥
  SomeItems (cons v vs) = Unit {0}

  abbrev pub SomeMembers : Members D → Type 0
  SomeMembers end = ⊥
  SomeMembers (member k v ms) = Unit {0}

module _ {D : Type 0} (doubles : Doubles D) where
  abbrev pub printed : ℕ → Value D → Bytes
  printed level v = write doubles compact false level v

  -- The elements behind the first, without the closing bracket.
  abbrev pub printed_items : ℕ → Items D → Bytes → Bytes
  printed_items level vs close = write_items doubles compact false level vs close

  abbrev pub printed_members : ℕ → Members D → Bytes
  printed_members level ms =
      join_entries compact level (write_members doubles compact false level ms)

  pub write_items-append :
      (level : ℕ) (vs : Items D) (close rest : Bytes)
      → printed_items level vs close ++ rest ≡ printed_items level vs (close ++ rest)
  unfolding write line_break
  write_items-append level nil close rest = refl
  write_items-append level (cons v vs) close rest =
      ap (λ t. b',' ∷ t)
        (append_assoc (printed level v) (printed_items level vs close) rest
          ∙ ap (λ t. printed level v ++ t) (write_items-append level vs close rest))

  pub write-Opens : (level : ℕ) (v : Value D) → Plain v → Opens (printed level v)
  unfolding write write_members object_text append_json_string is_blank Plain format_int
  write-Opens level null p = (b'n', (_, (refl, (refl, (refl, refl)))))
  write-Opens level (boolean true) p = (b't', (_, (refl, (refl, (refl, refl)))))
  write-Opens level (boolean false) p = (b'f', (_, (refl, (refl, (refl, refl)))))
  write-Opens level (integer (pos n)) p =
      let (c, (cs, (e, h))) = decimal-Unsigned n in
      let digit : is_digit c ≡ true = (subst AllDigits e (decimal-AllDigits n)).0 in
      (c, (cs, (e, (ground arith, (ground arith, ground arith)))))
  write-Opens level (integer (negsuc n)) p = (b'-', (_, (refl, (refl, (refl, refl)))))
  write-Opens level (number x) p = absurd p
  write-Opens level (string s) p = (b'"', (_, (refl, (refl, (refl, refl)))))
  write-Opens level (array nil) p = (b'[', (_, (refl, (refl, (refl, refl)))))
  write-Opens level (array (cons v vs)) p = (b'[', (_, (refl, (refl, (refl, refl)))))
  write-Opens level (object end) p = (b'{', (_, (refl, (refl, (refl, refl)))))
  write-Opens level (object (member k v ms)) p = (b'{', (_, (refl, (refl, (refl, refl)))))

  pub members-Opens :
      (level : ℕ) (key : Bytes) (v : Value D) (ms : Members D) (rest : Bytes)
      → Opens (printed_members level (member key v ms) ++ rest)
  unfolding write join_entries entry_text line_break append_json_string is_blank
  members-Opens level key v end rest = (b'"', (_, (refl, (refl, (refl, refl)))))
  members-Opens level key v (member k w ms) rest = (b'"', (_, (refl, (refl, (refl, refl)))))

  pub members_last :
      (level : ℕ) (key : Bytes) (v : Value D) (rest : Bytes)
      → printed_members level (member key v end) ++ rest
        ≡ append_json_string key ++ (b':' ∷ (printed level v ++ rest))
  unfolding write join_entries entry_text line_break colon
  members_last level key v rest =
      append_assoc (append_json_string key) (b':' ∷ printed level v) rest

  pub members_more :
      (level : ℕ) (key : Bytes) (v : Value D) (k : Bytes) (w : Value D) (ms : Members D)
      (rest : Bytes)
      → printed_members level (member key v (member k w ms)) ++ rest
        ≡ append_json_string key
          ++ (b':' ∷ (printed level v ++ (b',' ∷ (printed_members level (member k w ms) ++ rest))))
  unfolding write join_entries entry_text line_break colon
  members_more level key v k w ms rest =
      let later = b',' ∷ printed_members level (member k w ms) in
      ap (λ t. t ++ rest) (append_assoc (append_json_string key) (b':' ∷ printed level v) later)
      ∙ (append_assoc (append_json_string key) (b':' ∷ (printed level v ++ later)) rest
          ∙ ap (λ t. append_json_string key ++ (b':' ∷ t))
              (append_assoc (printed level v) later rest))

  abbrev pub items_text : ℕ → Items D → Bytes → Bytes
  items_text level nil close = close
  items_text level (cons v vs) close = printed level v ++ printed_items level vs close

  pub items_text-append :
      (level : ℕ) (v : Value D) (vs : Items D) (rest : Bytes)
      → (printed level v ++ printed_items level vs (b']' ∷ [])) ++ rest
        ≡ items_text level (cons v vs) (b']' ∷ rest)
  items_text-append level v vs rest =
      append_assoc (printed level v) (printed_items level vs (b']' ∷ [])) rest
      ∙ ap (λ t. printed level v ++ t) (write_items-append level vs (b']' ∷ []) rest)

  pub length-items_text :
      (level : ℕ) (v : Value D) (vs : Items D)
      → length (printed level v ++ printed_items level vs (b']' ∷ []))
        ≡ length (items_text level (cons v vs) []) + 1
  length-items_text level v vs = omega (
    arith,
    ap (λ (t : Bytes). length t) (write_items-append level vs [] (b']' ∷ [])),
    length-append (printed_items level vs []) (b']' ∷ []),
    length-append (printed level v) (printed_items level vs (b']' ∷ [])),
    length-append (printed level v) (printed_items level vs []),
  )

  pub length-members_last :
      (level : ℕ) (key : Bytes) (v : Value D)
      → length (printed level v) + 1 ≤ length (printed_members level (member key v end))
  length-members_last level key v = omega (
    arith,
    ap (λ (t : Bytes). length t) (members_last level key v []),
    length-append (printed_members level (member key v end)) [],
    length-append (append_json_string key) (b':' ∷ (printed level v ++ [])),
    length-append (printed level v) [],
  )

  pub length-members_more :
      (level : ℕ) (key : Bytes) (v : Value D) (k : Bytes) (w : Value D) (ms : Members D)
      → length (printed level v) + length (printed_members level (member k w ms)) + 2
        ≤ length (printed_members level (member key v (member k w ms)))
  length-members_more level key v k w ms =
      let later = b',' ∷ (printed_members level (member k w ms) ++ []) in
      omega (
        arith,
        ap (λ (t : Bytes). length t) (members_more level key v k w ms []),
        length-append (printed_members level (member key v (member k w ms))) [],
        length-append (append_json_string key) (b':' ∷ (printed level v ++ later)),
        length-append (printed level v) later,
        length-append (printed_members level (member k w ms)) [],
      )
