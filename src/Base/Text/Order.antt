-- ===== src/Base/Text/Order.antt =====
-- The order of texts by their code units is total, transitive and antisymmetric.
use mathlib.Core.Path.{◌≡◌, refl}
use mathlib.Core.Logic.{◌⊎◌, inl, inr}
use mathlib.Core.List.{[], ◌∷◌}
use native.Mathlib.Omega.{arith}
use cloud_commitment_portfol.Base.Int.{pos, ◌≤ℤ◌, ◌<ℤ◌}
use cloud_commitment_portfol.Base.Text.{Text, compare_text}

abbrev Le : Text → Text → Type 0
Le s t = compare_text s t ≤ℤ pos 0

pub compare_text_total : (s t : Text) → Le s t ⊎ Le t s
unfolding compare_text
compare_text_total [] [] = inl (ground arith)
compare_text_total [] (d ∷ t) = inl (ground arith)
compare_text_total (c ∷ s) [] = inr (ground arith)
compare_text_total (c ∷ s) (d ∷ t) = ground (arith, compare_text_total s t)

pub compare_text_trans : (s t u : Text) → Le s t → Le t u → Le s u
unfolding compare_text
compare_text_trans [] [] u h k = k
compare_text_trans [] (d ∷ t) [] h k = ground arith
compare_text_trans [] (d ∷ t) (e ∷ u) h k = ground arith
compare_text_trans (c ∷ s) [] u h k = absurd (ground arith)
compare_text_trans (c ∷ s) (d ∷ t) [] h k = absurd (ground arith)
compare_text_trans (c ∷ s) (d ∷ t) (e ∷ u) h k = ground (arith, compare_text_trans s t u)

pub compare_text_antisymm : (s t : Text) → Le s t → Le t s → s ≡ t
unfolding compare_text
compare_text_antisymm [] [] h k = refl
compare_text_antisymm [] (d ∷ t) h k = absurd (ground arith)
compare_text_antisymm (c ∷ s) [] h k = absurd (ground arith)
compare_text_antisymm (c ∷ s) (d ∷ t) h k = ground (arith, compare_text_antisymm s t)

pub compare_text_strict : (s t : Text) → compare_text s t <ℤ pos 0 → Le t s → ⊥
unfolding compare_text
compare_text_strict [] [] h k = ground arith
compare_text_strict [] (d ∷ t) h k = ground arith
compare_text_strict (c ∷ s) [] h k = ground arith
compare_text_strict (c ∷ s) (d ∷ t) h k = ground (arith, compare_text_strict s t)

-- Texts that are not the other one come strictly before or after it.
pub compare_text_apart : (s t : Text) → Le s t → (compare_text s t <ℤ pos 0) ⊎ (s ≡ t)
unfolding compare_text
compare_text_apart [] [] h = inr refl
compare_text_apart [] (d ∷ t) h = inl (ground arith)
compare_text_apart (c ∷ s) [] h = absurd (ground arith)
compare_text_apart (c ∷ s) (d ∷ t) h = ground (arith, compare_text_apart s t)
