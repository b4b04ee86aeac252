-- ===== src/Reload.antt =====
-- src/blogin/reload.cpp and include/reload.h: the messages of the live reload, the injection of the
-- client into a page, and the channel with its version.
pub mod Versions
use blogin.Common.{
  ℕ, ◌+◌, Option, none, some, List, [], ◌∷◌, ◌++◌, true, false, take, drop, Bytes, codes,
  find_bytes,
}
use blogin.Value.{ℤ, pos, Value, null, string, integer, array, object, nil, end, set, push}
use blogin.Json.Writer.{Doubles, compact, to_json}

module _ {D : Type 0} where
  unfoldable pub hello_value : ℤ → Bytes → Value D
  hello_value version session =
      set
        (set (set (object end) (codes "type") (string (codes "hello"))) (codes "version")
          (integer version))
        (codes "session") (string session)

  -- The loop over the paths.
  unfoldable pub push_paths : Value D → List Bytes → Value D
  push_paths listed [] = listed
  push_paths listed (path ∷ paths) = push_paths (push listed (string path)) paths

  unfoldable pub change_value : ℤ → List Bytes → Value D
  change_value version paths =
      set
        (set (set (object end) (codes "type") (string (codes "change"))) (codes "version")
          (integer version))
        (codes "paths") (push_paths (array nil) paths)

  unfoldable pub failure_value : ℤ → Bytes → Bytes → ℕ → Value D
  failure_value version detail file line =
      set
        (set
          (set
            (set (set (object end) (codes "type") (string (codes "failure"))) (codes "version")
              (integer version))
            (codes "detail") (string detail))
          (codes "file") (string file))
        (codes "line") (integer (pos line))

module _ {D : Type 0} (doubles : Doubles D) where
  unfoldable pub hello_message : ℤ → Bytes → Bytes
  hello_message version session = to_json doubles compact false (hello_value version session)

  unfoldable pub change_message : ℤ → List Bytes → Bytes
  change_message version paths = to_json doubles compact false (change_value version paths)

  unfoldable pub failure_message : ℤ → Bytes → Bytes → ℕ → Bytes
  failure_message version detail file line =
      to_json doubles compact false (failure_value version detail file line)

abbrev pub closing_body : Bytes
closing_body = codes "</body>"

-- The script at the place that was found.
abbrev pub inject_at : Bytes → Bytes → Option ℕ → Bytes
inject_at html script none = html ++ script
inject_at html script (some closing) = take closing html ++ (script ++ drop closing html)

unfoldable pub inject : Bytes → Bytes → Bytes
inject html script = inject_at html script (find_bytes html closing_body)

-- What the mutex guards. Every method holds it from its first line to its last, so a run is a
-- sequence of calls; `version_` counts calls and stays far below 2 ^ 63.
pub record Channel : Type 0 where
  pub version : ℕ
  pub session : Bytes

-- A call that changes the channel.
pub data Push : Type 0 where
  change : List Bytes → Push
  failure : Bytes → Bytes → ℕ → Push

module _ {D : Type 0} (doubles : Doubles D) where
  -- `Channel::change` and `Channel::failure`: the message, and the channel after the call.
  unfoldable pub run_push : Channel → Push → Bytes × Channel
  run_push c (change paths) =
      (change_message doubles (pos (c.version + 1)) paths, record c { version = c.version + 1 })
  run_push c (failure detail file line) = (
    failure_message doubles (pos (c.version + 1)) detail file line,
    record c { version = c.version + 1 },
  )

  unfoldable pub hello : Channel → Bytes
  hello c = hello_message doubles (pos c.version) c.session

  -- A run of the channel: the messages in order, and the channel at the end.
  unfoldable pub run : Channel → List Push → List Bytes × Channel
  run c [] = ([], c)
  run c (p ∷ ps) = let step = run_push c p in let rest = run step.1 ps in (step.0 ∷ rest.0, rest.1)
