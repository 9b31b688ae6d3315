-- ===== src/Release/Create/Normalize.antt =====
-- deployment-core/pkg/deploycore/release/model.go: what normalizeStrings returns.
use devopsellence.Base.{
  true, not, ◌&&◌, ◌≡◌, refl, ◌∙◌, ap, List, [], ◌∷◌, map, Text, trim, is_empty, contains,
  is_distinct, arith, ◌↔◌, subst, sym,
}
use devopsellence.Base.TextLaws.{eq_iff, eq_refl}
use devopsellence.Base.SortLaws.{contains-sort, sort_texts-Ascending, Ascending, Ascending-ext}
use devopsellence.Release.Create.{collect_strings, normalize_strings}

contains-collect :
    (seen values : List Text) (v : Text)
    → contains (collect_strings seen values) v
      ≡ (contains (map trim values) v && (not (is_empty v) && not (contains seen v)))
unfolding collect_strings contains
contains-collect seen [] v = refl
contains-collect seen (x ∷ xs) v =
    ground
      (arith, contains-collect seen xs v, contains-collect (trim x ∷ seen) xs v, eq_iff (trim x) v)

collect-is_distinct : (seen values : List Text) → is_distinct (collect_strings seen values) ≡ true
unfolding collect_strings is_distinct contains
collect-is_distinct seen [] = refl
collect-is_distinct seen (x ∷ xs) = ground (
  arith,
  collect-is_distinct seen xs,
  collect-is_distinct (trim x ∷ seen) xs,
  contains-collect (trim x ∷ seen) xs (trim x),
  eq_refl (trim x),
)

pub normalize_strings-Ascending : (values : List Text) → Ascending (normalize_strings values)
unfolding normalize_strings
normalize_strings-Ascending values = sort_texts-Ascending _ (collect-is_distinct [] values)

pub contains-normalize_strings :
    (values : List Text) (v : Text)
    → contains (normalize_strings values) v ≡ (contains (map trim values) v && not (is_empty v))
unfolding normalize_strings contains
contains-normalize_strings values v =
    contains-sort (collect_strings [] values) v ∙ ground (arith, contains-collect [] values v)

-- normalizeStrings returns the one strictly ascending list (so without duplicates) that holds a
-- text exactly if the text is not empty and is one of the given values trimmed: any list with
-- those two properties is its result.
pub normalize_strings_characterised :
    (values out : List Text)
    → (normalize_strings values ≡ out) ↔ (
        Ascending out
        × ((v : Text) → contains out v ≡ (contains (map trim values) v && not (is_empty v))))
normalize_strings_characterised values out = (
  λ e. (
    subst Ascending e (normalize_strings-Ascending values),
    λ v. ap (λ l. contains l v) (sym e) ∙ contains-normalize_strings values v,
  ),
  λ h.
      Ascending-ext _ out (normalize_strings-Ascending values) h.0
        (λ v. contains-normalize_strings values v ∙ sym (h.1 v)),
)
