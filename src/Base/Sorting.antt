-- ===== src/Base/Sorting.antt =====
-- sort.Strings and sort.SliceStable as a stable insertion sort.
use mathlib.Core.Bool.{Bool}
use mathlib.Core.List.{List, [], ◌∷◌}
use devopsellence.Base.Tests.{if◌then◌else◌}
use devopsellence.Base.Texts.{Text, text_lt}

module _ {ℓ} {A : Type ℓ} (less : A → A → Bool) where
  unfoldable pub insert_by : A → List A → List A
  insert_by x [] = x ∷ []
  insert_by x (y ∷ ys) = if less y x then y ∷ insert_by x ys else x ∷ y ∷ ys

  unfoldable pub sort_by : List A → List A
  unfolding insert_by
  sort_by [] = []
  sort_by (x ∷ xs) = insert_by x (sort_by xs)

unfoldable pub sort_texts : List Text → List Text
unfolding sort_by text_lt
sort_texts = sort_by text_lt
