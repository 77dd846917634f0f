-- ===== src/Request/Body.antt =====
-- A request's body and its file position: `set_file_position` and `rewind_body` of
-- src/urllib3/util/request.py.
use urllib.Prelude.{ℕ, Bool, Option, none, some, if◌then◌else◌}
use urllib.Prelude.Text.{Text}
use urllib.Exceptions.{Outcome, ok, raises, plain, value_error, unrewindable_body_error}

-- A file-like object: whether it has `tell` and `seek`, and whether a call of them fails with an
-- `OSError`.
pub record File : Type 0 where
  pub has_tell : Bool
  pub tell_fails : Bool
  pub has_seek : Bool
  pub seek_fails : Bool

-- `payload` is a body with neither `tell` nor `seek`: text, bytes or an iterable.
pub data Body : Type 0 where
  absent : Body
  payload : Text → Body
  file : File → Body

-- `body_pos`, where it is not `None`.
pub data Position : Type 0 where
  at : ℕ → Position
  failed_tell : Position

-- The result, and where the file stands after it.
abbrev pub Moved : Type 0
Moved = Outcome (Option Position) × ℕ

-- Without `seek`, or for `_FAILEDTELL`.
abbrev pub not_rewound : Position → ℕ → Moved
not_rewound (at n) stands = (raises (plain value_error), stands)
not_rewound failed_tell stands = (raises (plain unrewindable_body_error), stands)

abbrev pub seek_to : File → Position → ℕ → Moved
seek_to f failed_tell stands = not_rewound failed_tell stands
seek_to f (at n) stands =
    if f.has_seek
    then (if f.seek_fails
        then (raises (plain unrewindable_body_error), stands)
        else (ok (some (at n)), n))
    else not_rewound (at n) stands

unfoldable pub rewind_body : Body → Position → ℕ → Moved
rewind_body absent pos stands = not_rewound pos stands
rewind_body (payload t) pos stands = not_rewound pos stands
rewind_body (file f) pos stands = seek_to f pos stands

-- The position to come back to, recorded before the first attempt.
abbrev pub recorded : Body → ℕ → Option Position
recorded absent stands = none
recorded (payload t) stands = none
recorded (file f) stands =
    if f.has_tell then some (if f.tell_fails then failed_tell else at stands) else none

unfoldable pub set_file_position : Body → Option Position → ℕ → Moved
unfolding rewind_body
set_file_position body (some pos) stands = rewind_body body pos stands
set_file_position body none stands = (ok (recorded body stands), stands)
