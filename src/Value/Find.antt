-- ===== src/Value/Find.antt =====
-- src/blogin/value.cpp: `set` and `find`.
use blogin.Common.{
  false, some, if◌then◌else◌, Bytes, same_bytes, ◌≡◌, refl, sym, ap, ◌∙◌, arith, Bool-cases, inl,
  inr,
}
use blogin.Common.Maps.{same_bytes→eq, same_bytes_refl}
use blogin.Value.{
  Value, Members, end, member, null, boolean, integer, number, string, array, object, set_member,
  find_member, set, find,
}

clash : {k key other : Bytes} → same_bytes k key ≡ false → k ≡ other → key ≡ other → ⊥
clash {k} {key} e f g =
    let same = same_bytes_refl k in
    let moved : same_bytes k k ≡ same_bytes k key = ap (λ x. same_bytes k x) (f ∙ sym g) in
    ground arith

module _ {D : Type 0} where
  pub find_member-set_member :
      (ms : Members D) (key other : Bytes) (item : Value D)
      → find_member (set_member ms key item) other
        ≡ (if same_bytes key other then some item else find_member ms other)
  unfolding find_member set_member
  find_member-set_member end key other item = refl
  find_member-set_member (member k v ms) key other item = elim (Bool-cases (same_bytes k key)) [
    | inl e ↦
        let here : same_bytes k other ≡ same_bytes key other =
          ap (λ x. same_bytes x other) (same_bytes→eq k key e) in
        rw (e, here) (ground arith)
    | inr e ↦ elim (Bool-cases (same_bytes k other)) [
      | inl f ↦ elim (Bool-cases (same_bytes key other)) [
        | inl g ↦ absurd (clash e (same_bytes→eq k other f) (same_bytes→eq key other g))
        | inr g ↦ rw (e, f, g)
      ]
      | inr f ↦ rw (e, f) (find_member-set_member ms key other item)
    ]
  ]

  -- What is set under a key is found under it, and under any other key what was there before;
  -- a value that is no object becomes one with that member alone.
  pub find-set :
      (v item : Value D) (key other : Bytes)
      → find (set v key item) other ≡ (if same_bytes key other then some item else find v other)
  unfolding find set
  find-set null item key other = refl
  find-set (boolean b) item key other = refl
  find-set (integer n) item key other = refl
  find-set (number x) item key other = refl
  find-set (string s) item key other = refl
  find-set (array xs) item key other = refl
  find-set (object ms) item key other = find_member-set_member ms key other item
