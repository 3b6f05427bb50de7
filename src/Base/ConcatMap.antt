-- ===== src/Base/ConcatMap.antt =====
-- The entries of a list, each for what it gives.
use mathlib.Core.List.{List, [], ◌∷◌, ◌++◌, append_assoc}
use mathlib.Core.Path.{◌≡◌, refl, sym, ◌∙◌, ap}

module _ {ℓ κ} {A : Type ℓ} {B : Type κ} (f : A → List B) where
  unfoldable pub concat_map : List A → List B
  concat_map [] = []
  concat_map (x ∷ xs) = f x ++ concat_map xs

  pub concat_map-append : (xs ys : List A) → concat_map (xs ++ ys) ≡ concat_map xs ++ concat_map ys
  unfolding concat_map
  concat_map-append [] ys = refl
  concat_map-append (x ∷ xs) ys =
      ap (λ t. f x ++ t) (concat_map-append xs ys)
      ∙ sym (append_assoc (f x) (concat_map xs) (concat_map ys))
