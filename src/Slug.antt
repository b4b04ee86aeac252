-- ===== src/Slug.antt =====
-- src/blogin/slug.cpp: `slugify` and `humanize`.
pub mod Shape
pub mod Stable
use blogin.Common.{
  ℕ, ◌+◌, ◌-◌, Bool, true, false, not, ◌&&◌, ◌||◌, List, [], ◌∷◌, ◌++◌, ◌==◌, if◌then◌else◌, within,
  is_empty, Bytes, codes,
}
use blogin.Text.{to_lower_ascii}

unfoldable pub is_slug_character : ℕ → Bool
is_slug_character character = within b'a' b'z' character || within b'0' b'9' character

unfoldable pub spelled_out : ℕ → Bytes
spelled_out character =
    if character == b'+'
    then codes "plus"
    else if character == b'#'
    then codes "sharp"
    else if character == b'&'
    then codes "and"
    else []

-- The variables of the loop.
pub record Slugging : Type 0 where
  pub out : Bytes
  pub pending_hyphen : Bool

-- One round of the loop.
unfoldable pub slug_step : Slugging → ℕ → Slugging
slug_step s character =
    let word = spelled_out character in
    if not (is_empty word)
    then record {
      out = (if not (is_empty s.out) then s.out ++ (b'-' ∷ []) else s.out) ++ word;
      pending_hyphen = true;
    }
    else if is_slug_character character
    then record {
      out =
          (if s.pending_hyphen && not (is_empty s.out) then s.out ++ (b'-' ∷ []) else s.out)
          ++ (character ∷ []);
      pending_hyphen = false;
    }
    else record s { pending_hyphen = true }

unfoldable pub slug_loop : Slugging → Bytes → Slugging
slug_loop s [] = s
slug_loop s (c ∷ cs) = slug_loop (slug_step s c) cs

unfoldable pub slugify : Bytes → Bytes
unfolding slug_loop slug_step spelled_out is_slug_character
slugify text = (slug_loop (record { out = []; pending_hyphen = false }) (to_lower_ascii text)).out

humanize_loop : Bytes → Bool → Bytes → Bytes
humanize_loop out start_of_word [] = out
humanize_loop out start_of_word (character ∷ rest) =
    let separated =
      humanize_loop (if not (is_empty out) && not start_of_word then out ++ (b' ' ∷ []) else out)
        true rest in
    let copied =
      humanize_loop
        (out
          ++ ((if start_of_word && within b'a' b'z' character
                then character - b'a' + b'A'
                else character)
              ∷ []))
        false rest in
    if character == b'-' || character == b'_' then separated else copied

unfoldable pub humanize : Bytes → Bytes
unfolding humanize_loop
humanize text = humanize_loop [] true text
