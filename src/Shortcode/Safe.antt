-- ===== src/Shortcode/Safe.antt =====
-- src/blogin/shortcode.cpp: what `escape_attribute` lets through.
use blogin.Common.{ℕ, [], ◌∷◌, All, All-append, Bytes, ◌≢◌, arith}
use blogin.Shortcode.{escaped_byte, escape_attribute}

-- A byte that neither opens nor closes a tag, nor ends an attribute in double quotes.
abbrev pub Safe : ℕ → Type 0
Safe c = (c ≢ b'<') × (c ≢ b'>') × (c ≢ b'"')

escaped_byte-Safe : (c : ℕ) → All Safe (escaped_byte c)
unfolding escaped_byte
escaped_byte-Safe c = ground arith

-- No byte of an escaped text opens or closes a tag or ends an attribute in double quotes.
pub escape_attribute-Safe : (text : Bytes) → All Safe (escape_attribute text)
unfolding escape_attribute
escape_attribute-Safe [] = tt
escape_attribute-Safe (c ∷ cs) =
    All-append Safe (escaped_byte c) (escape_attribute cs) (escaped_byte-Safe c)
      (escape_attribute-Safe cs)
