-- ===== src/Text/Joining.antt =====
-- strings.Join, with the separator first.
use siteboost_core.Common.{List, [], ◌∷◌, ◌++◌}
use siteboost_core.Text.{Text}

unfoldable pub join_texts : Text → List Text → Text
join_texts sep [] = []
join_texts sep (t ∷ []) = t
join_texts sep (t ∷ u ∷ texts) = t ++ sep ++ join_texts sep (u ∷ texts)
