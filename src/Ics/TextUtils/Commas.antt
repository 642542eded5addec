-- ===== src/Ics/TextUtils/Commas.antt =====
-- Lists of texts between commas, and std::getline at ',' as their inverse.
use divoom_dev.Prelude.{◌≡◌, refl, ap, ◌∙◌, true, false, List, [], ◌∷◌, ◌++◌, arith, All}
use divoom_dev.Prelude.Text.{Text, Lacks, is_empty, pieces, pieces-line, pieces-last}
use divoom_dev.Ics.TextUtils.Tight.{starts_tight, ends_tight, ends_tight-after}

abbrev pub comma_list : List Text → Text
comma_list [] = []
comma_list (d ∷ []) = d
comma_list (d ∷ e ∷ ds) = d ++ b',' ∷ comma_list (e ∷ ds)

-- A member of a list: not empty, no blank around it, no ',' in it.
pub record IsMember (d : Text) : Type 0 where
  pub some_text : is_empty d ≡ false
  pub starts : starts_tight d ≡ true
  pub ends : ends_tight d ≡ true
  pub comma : Lacks b',' d

pub comma_list-tight : (ds : List Text) → All IsMember ds → ends_tight (comma_list ds) ≡ true
comma_list-tight [] h = refl
comma_list-tight (d ∷ []) h = h.0.ends
comma_list-tight (d ∷ e ∷ ds) h =
    ends_tight-after d b',' (comma_list (e ∷ ds)) refl (comma_list-tight (e ∷ ds) h.1)

pieces-member : (d : Text) → IsMember d → pieces b',' d ≡ d ∷ []
pieces-member [] h = ground (arith, h.some_text)
pieces-member (c ∷ s) h = pieces-last b',' c s h.comma

pub pieces-comma_list : (ds : List Text) → All IsMember ds → pieces b',' (comma_list ds) ≡ ds
pieces-comma_list [] h = unfold pieces in refl
pieces-comma_list (d ∷ []) h = pieces-member d h.0
pieces-comma_list (d ∷ e ∷ ds) h =
    pieces-line b',' d (comma_list (e ∷ ds)) h.0.comma ∙ ap (◌∷◌ d) (pieces-comma_list (e ∷ ds) h.1)

pub comma_list-is_empty :
    (d : Text) (ds : List Text) → is_empty d ≡ false → is_empty (comma_list (d ∷ ds)) ≡ false
comma_list-is_empty d [] h = h
comma_list-is_empty [] (e ∷ ds) h = ground (arith, h)
comma_list-is_empty (c ∷ d) (e ∷ ds) h = refl
