-- ===== src/Release/Select.antt =====
-- deployment-core/pkg/deploycore/release/model.go: SelectRollbackRelease.
pub mod Matching
pub mod Previous
use devopsellence.Base.{
  ℕ, Bool, true, false, not, ◌&&◌, ◌||◌, Option, none, some, List, [], ◌∷◌, keep, Text, ◌==◌, codes,
  trim, is_empty, equal_fold, has_prefix, text_lt, sort_by, ltb, nat_eq, Dict, lookup, insert,
  Result, ok, err, ◌>>=◌, ◌>>◌, reject_if, if◌then◌else◌,
}
use devopsellence.Release.Types.{Release, Times}

pub data SelectError : Type 0 where
  current_release_required : SelectError
  created_at_required : (id : Text) → SelectError
  created_at_invalid : (id : Text) → SelectError
  current_release_not_found : Text → SelectError
  no_previous_release : SelectError
  release_not_found : Text → SelectError
  selector_ambiguous : Text → SelectError

unfoldable pub parse_release_created_at : Times → Release → Result SelectError ℕ
parse_release_created_at times r =
    let text = trim r.created_at in
    if is_empty text
    then err (created_at_required r.id)
    else elim (times.parse_rfc3339 text) [ none ↦ err (created_at_invalid r.id) | some t ↦ ok t ]

-- The loop that fills createdAtByID; a later release of the same id wins.
unfoldable pub created_at_by_id : Times → Dict ℕ → List Release → Result SelectError (Dict ℕ)
unfolding parse_release_created_at
created_at_by_id times found [] = ok found
created_at_by_id times found (r ∷ rs) =
    parse_release_created_at times r >>= λ t. created_at_by_id times (insert r.id t found) rs

abbrev pub time_at : Dict ℕ → Text → ℕ
time_at times id = elim (lookup id times) [ none ↦ 0 | some t ↦ t ]

-- The order of the candidates, newest first.
unfoldable pub newer : Dict ℕ → Release → Release → Bool
newer times a b =
    if nat_eq (time_at times a.id) (time_at times b.id)
    then (if a.id == b.id then text_lt b.revision a.revision else text_lt b.id a.id)
    else ltb (time_at times b.id) (time_at times a.id)

-- The candidates behind the first one of the id.
unfoldable pub behind : Text → List Release → Option (List Release)
behind id [] = none
behind id (r ∷ rs) = if r.id == id then some rs else behind id rs

unfoldable pub first_named : List Release → Result SelectError Release
first_named [] = err no_previous_release
first_named (r ∷ rs) = if not (is_empty r.id) then ok r else first_named rs

unfoldable pub previous_of : Text → Option (List Release) → Result SelectError Release
unfolding first_named
previous_of id none = err (current_release_not_found id)
previous_of id (some older) = first_named older

unfoldable pub select_previous : Times → List Release → Text → Result SelectError Release
unfolding created_at_by_id newer behind previous_of
select_previous times releases current =
    reject_if (is_empty current) current_release_required
    >> (created_at_by_id times [] releases >>= λ found.
        previous_of current (behind current (sort_by (newer found) releases)))

unfoldable pub matches_selector : Text → Release → Bool
matches_selector selector r =
    r.id == selector || r.revision == selector || has_prefix r.revision selector

unfoldable pub only_match : Text → List Release → Result SelectError Release
only_match selector [] = err (release_not_found selector)
only_match selector (r ∷ []) = ok r
only_match selector (r ∷ s ∷ rs) = err (selector_ambiguous selector)

-- The selector without its spaces; `previous`, in any case, is the same as none.
unfoldable pub rollback_selector : Text → Text
rollback_selector selector =
    let s = trim selector in if equal_fold s (codes "previous") then [] else s

unfoldable pub select_rollback_release :
    Times → List Release → Text → Text → Result SelectError Release
unfolding rollback_selector select_previous matches_selector only_match
select_rollback_release times releases current_release_id selector =
    let s = rollback_selector selector in
    if is_empty s
    then select_previous times releases (trim current_release_id)
    else only_match s (keep (matches_selector s) releases)
