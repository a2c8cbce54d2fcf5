-- ===== src/S3Keys/SafePath.antt =====
-- A key that the guard lets through names a place below the directory.
use launch_pad.Prelude.{
  Bool, true, false, ◌||◌, List, [], ◌∷◌, ◌++◌, ◌≡◌, sym, ◌∙◌, arith, if◌then◌else◌, all,
}
use mathlib.Core.List.{append-nil, append_assoc}
use launch_pad.Prelude.Text.{Text, codes, same_text, is_empty_text}
use launch_pad.S3Keys.{segments, is_clean_segment, is_safe_backup_key}

abbrev parent : List Text → List Text
parent [] = []
parent (s ∷ []) = []
parent (s ∷ t ∷ ss) = s ∷ parent (t ∷ ss)

-- What a file system makes of a relative path in a directory, given by its segments.
unfoldable pub resolved : List Text → List Text → List Text
resolved directory [] = directory
resolved directory (s ∷ ss) =
    if is_empty_text s || same_text (codes ".") s
    then resolved directory ss
    else if same_text (codes "..") s
    then resolved (parent directory) ss
    else resolved (directory ++ s ∷ []) ss

resolved_clean :
    (directory ss : List Text)
    → all is_clean_segment ss ≡ true
    → resolved directory ss ≡ directory ++ ss
unfolding resolved
resolved_clean directory [] h = sym (append-nil directory)
resolved_clean directory (s ∷ ss) h =
    let empty : is_empty_text s ≡ false = ground arith in
    let here : same_text (codes ".") s ≡ false = ground arith in
    let up : same_text (codes "..") s ≡ false = ground arith in
    rw (empty, here, up)
      (resolved_clean (directory ++ s ∷ []) ss (ground arith) ∙ append_assoc directory (s ∷ []) ss)

past_guards : (a b c : Bool) → (if a then false else if b then false else c) ≡ true → c ≡ true
past_guards true b c h = cc
past_guards false true c h = cc
past_guards false false c h = h

-- A key that `isSafeBackupKey` accepts is, in any directory, the place that its segments name in
-- turn: the path neither leaves the directory nor stands still.
pub resolved-segments :
    (directory : List Text) (key : Text)
    → is_safe_backup_key key ≡ true
    → resolved directory (segments key) ≡ directory ++ segments key
unfolding is_safe_backup_key
resolved-segments directory key h = resolved_clean directory (segments key) (past_guards _ _ _ h)
