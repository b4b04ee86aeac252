-- ===== src/ViewContext.antt =====
-- src/blogin/view_context.cpp and include/view_context.h: `ViewContext`, what a template may read,
-- and the recordings of what a fragment reads. A function of a view is a function of its arguments.
pub mod Replay
use blogin.Common.{
  ℕ, zero, suc, ◌+◌, Bool, true, false, not, ◌&&◌, ◌||◌, Option, none, some, List, [], ◌∷◌, ◌++◌,
  map, ◌==◌, ltb, if◌then◌else◌, is_empty, length, min, Bytes, codes, same_bytes,
}
use blogin.Common.Maps.{find_key, assign, has_key}
use blogin.Value.{Value}
use blogin.Json.Writer.{Doubles, compact, to_json}

pub record Argument (D : Type 0) : Type 0 where
  pub name : Bytes
  pub value : Value D

abbrev pub Function : Type 0 → Type 0
Function D = List (Argument D) → Value D

pub record Recording : Type 0 where
  pub reads : List (Bytes × Bytes)
  pub bound : List Bytes
  pub replayable : Bool

abbrev pub new_recording : Recording
new_recording = record { reads = []; bound = []; replayable = true }

-- The innermost recording is the first of `recordings`.
pub record ViewContext (D : Type 0) : Type 0 where
  pub values : List (Bytes × Value D)
  pub locals : List (Bytes × Value D)
  pub functions : List (Bytes × Function D)
  pub recordings : List Recording
  pub read_names : List Bytes
  pub replayable : Bool

-- The row of `edit_distance` for `character`: `diagonal` and `above` are the row before it.
unfoldable pub distance_row : ℕ → Bytes → ℕ → List ℕ → ℕ → List ℕ
distance_row character [] diagonal above left = []
distance_row character (c ∷ cs) diagonal [] left = []
distance_row character (c ∷ cs) diagonal (cell ∷ above) left =
    let substitution = if character == c then diagonal else diagonal + 1 in
    let next = min (left + 1) (min (cell + 1) substitution) in
    next ∷ distance_row character cs cell above next

unfoldable pub distance_rows : ℕ → Bytes → Bytes → List ℕ → List ℕ
distance_rows row [] right previous = previous
distance_rows row (c ∷ cs) right [] = []
distance_rows row (c ∷ cs) right (cell ∷ previous) =
    distance_rows (row + 1) cs right (row ∷ distance_row c right cell previous row)

-- `0, 1, …` up to the length of the text
abbrev pub first_row : ℕ → Bytes → List ℕ
first_row index [] = index ∷ []
first_row index (c ∷ cs) = index ∷ first_row (index + 1) cs

abbrev pub last_cell : List ℕ → ℕ
last_cell [] = 0
last_cell (cell ∷ []) = cell
last_cell (cell ∷ next ∷ cells) = last_cell (next ∷ cells)

unfoldable pub edit_distance : Bytes → Bytes → ℕ
edit_distance left right = last_cell (distance_rows 1 left right (first_row 0 right))

-- `consider` over the names in order: the best with its distance, `npos` being none.
unfoldable pub best_of : Bytes → Option (Bytes × ℕ) → List Bytes → Option (Bytes × ℕ)
best_of name best [] = best
best_of name best (candidate ∷ candidates) =
    let distance = edit_distance name candidate in
    let closer : Bool = elim best [
      | none ↦ true
      | some (old, old_distance) ↦ ltb distance old_distance
    ] in
    best_of name
      (if same_bytes candidate name
        then best
        else if closer
        then some (candidate, distance)
        else best)
      candidates

abbrev pub names_of {ℓ} : {A : Type ℓ} → List (Bytes × A) → List Bytes
names_of [] = []
names_of ((name, a) ∷ entries) = name ∷ names_of entries

unfoldable pub append_read : Bytes → Bytes → Bytes → Bytes
append_read key name value = key ++ (name ++ (b'=' ∷ (value ++ (b';' ∷ []))))

-- The end of the loop of `record`, with the read of the name so far.
abbrev pub read_again : Bytes → Bytes → Recording → Option Bytes → Recording
read_again name text recording none = record recording {
  reads = recording.reads ++ ((name, text) ∷ []);
}
read_again name text recording (some seen) =
    if same_bytes seen text then recording else record recording { replayable = false }

unfoldable pub read_in : Bytes → Bytes → Recording → Recording
read_in name text recording =
    if has_key recording.bound name
    then recording
    else read_again name text recording (find_key recording.reads name)

-- The round of `note_bound`.
abbrev pub note : Bytes → Recording → Recording
note name recording =
    if has_key recording.bound name
    then recording
    else record recording { bound = recording.bound ++ (name ∷ []) }

-- The names that `locals` has.
unfoldable pub still_bound {ℓ} : {A : Type ℓ} → List (Bytes × A) → List Bytes → List Bytes
still_bound locals [] = []
still_bound locals (name ∷ names) =
    let rest = still_bound locals names in
    if has_key (names_of locals) name then name ∷ rest else rest

unfoldable pub key_of : Bytes → List (Bytes × Bytes) → Bytes
key_of key [] = key
key_of key ((name, text) ∷ reads) = key_of (append_read key name text) reads

module _ {D : Type 0} where
  unfoldable pub nearest : ViewContext D → Bytes → Bytes
  nearest context name =
      elim (best_of name (best_of name none (names_of context.values))
        (names_of context.functions)) [
          | none ↦ []
          | some (best, distance) ↦
              if is_empty best || ltb 3 distance
              then []
              else codes " (did you mean '" ++ (best ++ codes "'?)")
        ]

  unfoldable pub set_value : ViewContext D → Bytes → Value D → ViewContext D
  set_value context name value = record context { values = assign context.values name value }

  unfoldable pub define : ViewContext D → Bytes → Function D → ViewContext D
  define context name function = record context {
    functions = assign context.functions name function;
  }

  unfoldable pub note_bound : ViewContext D → Bytes → ViewContext D
  note_bound context name = record context { recordings = map (note name) context.recordings }

  unfoldable pub set_local : ViewContext D → Bytes → Value D → ViewContext D
  set_local context name value =
      let noted = note_bound context name in
      record noted { locals = assign noted.locals name value }

  unfoldable pub prune_bound : ViewContext D → ViewContext D
  prune_bound context =
      let pruned : Recording → Recording =
        λ recording. record recording { bound = still_bound context.locals recording.bound } in
      record context { recordings = map pruned context.recordings }

  unfoldable pub take_locals : ViewContext D → List (Bytes × Value D) × ViewContext D
  take_locals context = (context.locals, prune_bound (record context { locals = [] }))

  unfoldable pub restore_locals : ViewContext D → List (Bytes × Value D) → ViewContext D
  restore_locals context locals = prune_bound (record context { locals = locals })

  unfoldable pub function_named : ViewContext D → Bytes → Option (Function D)
  function_named context name = find_key context.functions name

  unfoldable pub begin_recording : ViewContext D → ViewContext D
  begin_recording context = record context { recordings = new_recording ∷ context.recordings }

  abbrev pub end_with : ViewContext D → List Recording → Bytes × ViewContext D
  end_with context [] = ([], context)
  end_with context (finished ∷ recordings) = (
    key_of [] finished.reads,
    record context {
      recordings = recordings;
      read_names = names_of finished.reads;
      replayable = finished.replayable;
    },
  )

  unfoldable pub end_recording : ViewContext D → Bytes × ViewContext D
  end_recording context = end_with context context.recordings

  module _ (doubles : Doubles D) where
    -- `record`
    unfoldable pub record_read : ViewContext D → Bytes → Value D → ViewContext D
    record_read context name value = record context {
      recordings = map (read_in name (to_json doubles compact true value)) context.recordings;
    }

    -- What a search gave, recorded.
    abbrev pub found_as :
        ViewContext D → Bytes → Option (Value D) → Option (Value D) × ViewContext D
    found_as context name none = (none, context)
    found_as context name (some value) = (some value, record_read context name value)

    unfoldable pub lookup : ViewContext D → Bytes → Option (Value D) × ViewContext D
    lookup context name = found_as context name (find_key context.values name)

    unfoldable pub lookup_local : ViewContext D → Bytes → Option (Value D) × ViewContext D
    lookup_local context name = found_as context name (find_key context.locals name)

    abbrev pub local_or :
        Bytes → Option (Value D) × ViewContext D → Option (Value D) × ViewContext D
    local_or name (some value, context) = (some value, context)
    local_or name (none, context) = lookup context name

    unfoldable pub resolve : ViewContext D → Bytes → Option (Value D) × ViewContext D
    resolve context name = local_or name (lookup_local context name)

    -- The loop of `replay`.
    unfoldable pub replay_onto : Bytes → ViewContext D → List Bytes → Option Bytes × ViewContext D
    replay_onto key context [] = (some key, context)
    replay_onto key context (name ∷ names) =
        let found = resolve context name in
        elim found.0 [
          | none ↦ (none, found.1)
          | some value ↦
              replay_onto (append_read key name (to_json doubles compact true value)) found.1 names
        ]

    unfoldable pub replay : ViewContext D → List Bytes → Option Bytes × ViewContext D
    replay context names = replay_onto [] context names

    -- `has` looks the name up, and so records it.
    unfoldable pub has : ViewContext D → Bytes → Bool × ViewContext D
    has context name =
        let found = lookup context name in
        elim found.0 [
          | some value ↦ (true, found.1)
          | none ↦
              (elim (function_named found.1 name) [ some function ↦ true | none ↦ false ], found.1)
        ]
