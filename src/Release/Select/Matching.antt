-- ===== src/Release/Select/Matching.antt =====
-- deployment-core/pkg/deploycore/release/model.go: a rollback to a release that is named.
use devopsellence.Base.{◌≡◌, ◌↔◌, sym, ◌∙◌, false, List, [], ◌∷◌, keep, Text, is_empty, ok, arith}
use devopsellence.Base.Filtering.{OnlyOne, keep-OnlyOne, OnlyOne-keep}
use devopsellence.Release.Types.{Release, Times}
use devopsellence.Release.Select.{
  matches_selector, only_match, rollback_selector, select_rollback_release,
}

only_match-ok : (s : Text) (rs : List Release) (r : Release) → only_match s rs ≡ ok r → rs ≡ r ∷ []
unfolding only_match
only_match-ok s [] r h = absurd (ground arith)
only_match-ok s (x ∷ []) r h = ground arith
only_match-ok s (x ∷ y ∷ rs) r h = absurd (ground arith)

only_match-one : (s : Text) (rs : List Release) (r : Release) → rs ≡ r ∷ [] → only_match s rs ≡ ok r
unfolding only_match
only_match-one s rs r h = rw h

select_named :
    (times : Times) (releases : List Release) (current selector : Text)
    → is_empty (rollback_selector selector) ≡ false
    → select_rollback_release times releases current selector
      ≡ only_match
          (rollback_selector selector)
          (keep (matches_selector (rollback_selector selector)) releases)
unfolding select_rollback_release
select_named times releases current selector h = rw h

-- With a selector that is not blank and not `previous` (in any case), a release is selected exactly
-- if it is the only one of the list whose id or revision is the trimmed selector, or whose revision
-- starts with it.
pub select_rollback_release_unique :
    (times : Times) (releases : List Release) (current selector : Text) (r : Release)
    → is_empty (rollback_selector selector) ≡ false
    → (select_rollback_release times releases current selector ≡ ok r)
      ↔ OnlyOne (matches_selector (rollback_selector selector)) r releases
select_rollback_release_unique times releases current selector r h =
    let s = rollback_selector selector in
    let same = select_named times releases current selector h in
    (
      λ e. keep-OnlyOne _ r releases (only_match-ok s _ r (sym same ∙ e)),
      λ o. same ∙ only_match-one s _ r (OnlyOne-keep _ r releases o),
    )
