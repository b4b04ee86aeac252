-- ===== src/Value/Merge.antt =====
-- src/blogin/value.cpp: what `deep_merge` keeps and replaces.
use blogin.Common.{
  true, false, ◌&&◌, none, Bytes, same_bytes, ◌≡◌, refl, ◌∙◌, arith, Bool-cases, Option-cases, inl,
  inr,
}
use blogin.Value.{
  Value, Members, end, member, object, is_object, find_member, find, merge_member, merge_members,
  deep_merge,
}
use blogin.Value.Find.{find-set}

module _ {D : Type 0} where
  find-merge_member :
      (deeper : Value D → Value D) (merged item : Value D) (key other : Bytes)
      → same_bytes key other ≡ false
      → find (merge_member deeper merged key item) other ≡ find merged other
  unfolding merge_member
  find-merge_member deeper merged item key other h = elim (Option-cases (find merged key)) [
    | inl n ↦ rw (merge_member, n) (find-set merged item key other ∙ rw h)
    | inr (existing, f) ↦ elim (Bool-cases (is_object existing && is_object item)) [
      | inl b ↦ rw (merge_member, f, b) (find-set merged (deeper existing) key other ∙ rw h)
      | inr b ↦ rw (merge_member, f, b) (find-set merged item key other ∙ rw h)
    ]
  ]

  find-merge_members :
      (merged : Value D) (ms : Members D) (other : Bytes)
      → find_member ms other ≡ none
      → find (merge_members merged ms) other ≡ find merged other
  unfolding merge_members find_member
  find-merge_members merged end other h = refl
  find-merge_members merged (member key item ms) other h =
      elim (Bool-cases (same_bytes key other)) [
        | inl e ↦ absurd (ground arith)
        | inr e ↦
            find-merge_members (merge_member (λ existing. deep_merge existing item) merged key item)
              ms other (rw e at h)
            ∙ find-merge_member (λ existing. deep_merge existing item) merged item key other e
      ]

  -- When objects are merged, a key that the object merged over the base does not have is found
  -- with the value that the base has for it, or is missing as it is there.
  pub find-deep_merge :
      (base : Value D) (ms : Members D) (other : Bytes)
      → is_object base ≡ true
      → find (object ms) other ≡ none
      → find (deep_merge base (object ms)) other ≡ find base other
  unfolding deep_merge find
  find-deep_merge base ms other b h = rw b (find-merge_members base ms other h)
