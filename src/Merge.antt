-- ===== src/Merge.antt =====
-- packages/shared/src/merge.ts: how a deploy replaces its own services in a node's list, and no
-- other project's. A thrown error is an `err` with the key that its text names.
pub mod Full
pub mod Partial
use Prim.Native.String.{◌++◌ as append}
use launch_pad.Prelude.{
  String, Bool, not, Option, none, some, List, [], ◌∷◌, ◌++◌, Dict, get, put, or_else, contains,
  str_eq, filter, if◌then◌else◌, Result, ok, err, ◌>>◌,
}
use launch_pad.Service.{ServiceConfig}

-- `serviceKey` of desired.ts
unfoldable pub service_key : String → String → String
service_key project service = append project (append "/" service)

abbrev pub key_of : ServiceConfig → String
key_of s = service_key s.project s.service

pub data MergeError : Type 0 where
  not_owned : String → MergeError
  duplicate : String → MergeError

unfoldable pub assert_owned : String → List ServiceConfig → Result MergeError (Unit {0})
assert_owned project [] = ok tt
assert_owned project (s ∷ ss) =
    if str_eq s.project project then assert_owned project ss else err (not_owned (key_of s))

-- The loop of `assertNoDuplicates`, with its set of keys.
unfoldable pub no_duplicates_from : List String → List ServiceConfig → Result MergeError (Unit {0})
no_duplicates_from seen [] = ok tt
no_duplicates_from seen (s ∷ ss) =
    if contains (key_of s) seen
    then err (duplicate (key_of s))
    else no_duplicates_from (seen ++ key_of s ∷ []) ss

unfoldable pub assert_no_duplicates : List ServiceConfig → Result MergeError (Unit {0})
assert_no_duplicates merged = no_duplicates_from [] merged

abbrev pub is_owned : String → ServiceConfig → Bool
is_owned project s = str_eq s.project project

abbrev pub is_other : String → ServiceConfig → Bool
is_other project s = not (str_eq s.project project)

unfoldable pub merge_project_services :
    List ServiceConfig → String → List ServiceConfig → Result MergeError (List ServiceConfig)
merge_project_services existing project incoming = do
  assert_owned project incoming
  let merged = filter (is_other project) existing ++ incoming
  assert_no_duplicates merged
  ok merged

-- `new Map(incoming.map((s) => [s.service, s]))`
unfoldable pub by_service_from : Dict ServiceConfig → List ServiceConfig → Dict ServiceConfig
by_service_from m [] = m
by_service_from m (s ∷ ss) = by_service_from (put s.service s m) ss

abbrev pub replacement : String → Dict ServiceConfig → ServiceConfig → Option ServiceConfig
replacement project m s = if str_eq s.project project then get s.service m else none

-- The first loop of the partial merge: the list with the replacements in place,
unfoldable pub replace_all : String → Dict ServiceConfig → List ServiceConfig → List ServiceConfig
replace_all project m [] = []
replace_all project m (s ∷ ss) = or_else (replacement project m s) s ∷ replace_all project m ss

-- and the names in `applied`.
unfoldable pub applied_names : String → Dict ServiceConfig → List ServiceConfig → List String
applied_names project m [] = []
applied_names project m (s ∷ ss) = elim (replacement project m s) [
  | none ↦ applied_names project m ss
  | some r ↦ r.service ∷ applied_names project m ss
]

unfoldable pub merge_project_services_partial :
    List ServiceConfig → String → List ServiceConfig → Result MergeError (List ServiceConfig)
merge_project_services_partial existing project incoming = do
  assert_owned project incoming
  let m = by_service_from [] incoming
  let applied = applied_names project m existing
  let merged =
      replace_all project m existing ++ filter (λ s. not (contains s.service applied)) incoming
  assert_no_duplicates merged
  ok merged
