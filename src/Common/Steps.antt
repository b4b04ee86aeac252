-- ===== src/Common/Steps.antt =====
-- `std::expected` for the methods of a class that reads a text: a result with the state behind it.
use mathlib.Core.Path.{◌≡◌, refl}
use mathlib.Core.Bool.{Bool, true, false}
use mathlib.Core.Option.{Option, none, some}
use blogin.Common.Tests.{if◌then◌else◌}

-- `stuck` is no value of the program: fuel ran out.
pub data Step (S E A : Type 0) : Type 0 where
  done : A → S → Step S E A
  failed : E → Step S E A
  stuck : Step S E A

abbrev pub bind : {S E A B : Type 0} → Step S E A → (A → S → Step S E B) → Step S E B
bind (done a s) f = f a s
bind (failed e) f = failed e
bind stuck f = stuck

infixl 5 ◌>>=◌
abbrev pub ◌>>=◌ : {S E A B : Type 0} → (S → Step S E A) → (A → S → Step S E B) → S → Step S E B
◌>>=◌ m f s = bind (m s) f

-- What runs as the method returns.
abbrev pub leaving : {S E A : Type 0} → (S → S) → Step S E A → Step S E A
leaving f (done a s) = done a (f s)
leaving f (failed e) = failed e
leaving f stuck = stuck

module _ {S E : Type 0} where
  -- The outcome is a result that satisfies `P`, or an error; fuel did not run out.
  abbrev pub Ends : {A : Type 0} → (A → S → Type 0) → Step S E A → Type 0
  Ends P (done a s) = P a s
  Ends P (failed e) = Unit {0}
  Ends P stuck = ⊥

  pub Ends-bind :
      {A B : Type 0} (P : A → S → Type 0) (Q : B → S → Type 0) (o : Step S E A)
      (f : A → S → Step S E B)
      → Ends P o
      → ((a : A) (s : S) → P a s → Ends Q (f a s))
      → Ends Q (bind o f)
  Ends-bind P Q (done a s) f h k = k a s h
  Ends-bind P Q (failed e) f h k = tt
  Ends-bind P Q stuck f h k = h

  pub Ends-leaving :
      {A : Type 0} (P Q : A → S → Type 0) (f : S → S) (o : Step S E A)
      → Ends P o
      → ((a : A) (s : S) → P a s → Q a (f s))
      → Ends Q (leaving f o)
  Ends-leaving P Q f (done a s) h k = k a s h
  Ends-leaving P Q f (failed e) h k = tt
  Ends-leaving P Q f stuck h k = h

  pub Ends-if :
      {A : Type 0} (P : A → S → Type 0) (b : Bool) (x y : Step S E A)
      → (b ≡ true → Ends P x)
      → (b ≡ false → Ends P y)
      → Ends P (if b then x else y)
  Ends-if P true x y h k = h refl
  Ends-if P false x y h k = k refl

  pub Ends-option :
      {A B : Type 0} (P : A → S → Type 0) (o : Option B) (x : Step S E A) (f : B → Step S E A)
      → (o ≡ none → Ends P x)
      → ((b : B) → o ≡ some b → Ends P (f b))
      → Ends P (elim o [ none ↦ x | some b ↦ f b ])
  Ends-option P none x f h k = h refl
  Ends-option P (some b) x f h k = k b refl

  pub Ends-map :
      {A : Type 0} {P Q : A → S → Type 0} (o : Step S E A)
      → Ends P o
      → ((a : A) (s : S) → P a s → Q a s)
      → Ends Q o
  Ends-map (done a s) h k = k a s h
  Ends-map (failed e) h k = tt
  Ends-map stuck h k = h
