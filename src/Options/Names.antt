-- ===== src/Options/Names.antt =====
-- Option names up to dashes and underscores, and the search by name.
use nu_ksm_pact21_artifact.Base.{◌≡◌, ◌≢◌, ◌↔◌, refl, true, [], ◌∷◌, arith}
use nu_ksm_pact21_artifact.Options.{Text, convert_dashes, same_name}

-- No byte of a C string is the terminator.
abbrev pub IsText : Text → Type 0
IsText [] = Unit
IsText (c ∷ s) = (c ≢ 0) × IsText s

same_name_sound :
    (s t : Text) → IsText s → IsText t → same_name s t ≡ true → convert_dashes s ≡ convert_dashes t
unfolding same_name convert_dashes
same_name_sound [] [] hs ht e = refl
same_name_sound [] (b ∷ t) hs ht e = let ne = ht.0 in ground arith
same_name_sound (a ∷ s) [] hs ht e = let ne = hs.0 in ground arith
same_name_sound (a ∷ s) (b ∷ t) hs ht e = ground (arith, same_name_sound s t hs.1 ht.1)

same_name_complete : (s t : Text) → convert_dashes s ≡ convert_dashes t → same_name s t ≡ true
unfolding same_name convert_dashes
same_name_complete [] [] e = refl
same_name_complete [] (b ∷ t) e = cc
same_name_complete (a ∷ s) [] e = cc
same_name_complete (a ∷ s) (b ∷ t) e = ground (arith, same_name_complete s t)

-- Two names of non-zero bytes are the same for `opt_name_cmp` exactly when `convert_dashes` makes
-- them equal.
pub same_name_iff :
    (s t : Text)
    → IsText s
    → IsText t
    → (same_name s t ≡ true) ↔ (convert_dashes s ≡ convert_dashes t)
same_name_iff s t hs ht = (same_name_sound s t hs ht, same_name_complete s t)
