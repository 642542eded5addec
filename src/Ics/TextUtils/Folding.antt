-- ===== src/Ics/TextUtils/Folding.antt =====
-- RFC 5545 line folding, and `unfold` of text_utils.cpp as its inverse.
use mathlib.Core.List.{append_assoc, append-nil}
use divoom_dev.Prelude.{
  ℕ, ◌≡◌, refl, sym, ap, ◌∙◌, ◌≢◌, Bool, true, false, ◌||◌, List, [], ◌∷◌, ◌++◌, map, arith, ◌==◌,
  if◌then◌else◌, concat, All, get_last?-append_one, drop_last-append_one, All-append,
}
use divoom_dev.Prelude.Text.{Text, pieces, glue, is_empty, pieces-line, pieces-last}
use divoom_dev.Ics.TextUtils.{unfold_text, unfold_lines, unfold_line, strip_cr, ends_line}

-- A content line, with the places where its writer folded it.
pub record FoldedLine : Type 0 where
  pub head : ℕ
  pub tail : Text
  pub more : List Text

abbrev pub IsContent : Text → Type 0
IsContent = All (λ c. c ≢ 10)

-- A line begins with no blank, and no byte of it is a newline.
pub record IsFoldable (l : FoldedLine) : Type 0 where
  pub not_blank : (l.head ≢ 32) × (l.head ≢ 9)
  pub first : IsContent (l.head ∷ l.tail)
  pub rest : All IsContent l.more

abbrev pub crlf : Text
crlf = 13 ∷ 10 ∷ []

abbrev pub fold_more : List Text → Text
fold_more [] = []
fold_more (p ∷ ps) = 32 ∷ (p ++ (crlf ++ fold_more ps))

-- The bytes of folded lines.
abbrev pub fold_text : List FoldedLine → Text
fold_text [] = []
fold_text (l ∷ ls) = (l.head ∷ l.tail) ++ (crlf ++ (fold_more l.more ++ fold_text ls))

-- The line that was meant.
abbrev pub logical : FoldedLine → Text
logical l = l.head ∷ (l.tail ++ concat l.more)

unfoldable pub with_cr : Text → Text
with_cr s = s ++ 13 ∷ []

unfoldable pub conts : List Text → List Text
conts [] = []
conts (p ∷ ps) = with_cr (32 ∷ p) ∷ conts ps

unfoldable pub physical : List FoldedLine → List Text
physical [] = []
physical (l ∷ ls) = with_cr (l.head ∷ l.tail) ∷ (conts l.more ++ physical ls)

pieces-cr :
    (s rest : Text) → IsContent s → pieces 10 (s ++ (crlf ++ rest)) ≡ with_cr s ∷ pieces 10 rest
unfolding with_cr
pieces-cr s rest h =
    rw (← append_assoc s (13 ∷ []) (10 ∷ rest))
      (pieces-line 10 (s ++ 13 ∷ []) rest (All-append _ s (13 ∷ []) h (omega arith)))

pieces-fold_more :
    (ps : List Text) (rest : Text)
    → All IsContent ps
    → pieces 10 (fold_more ps ++ rest) ≡ conts ps ++ pieces 10 rest
unfolding conts with_cr
pieces-fold_more [] rest h = refl
pieces-fold_more (p ∷ ps) rest h =
    ap (λ t. pieces 10 (32 ∷ t)) (append_assoc p (crlf ++ fold_more ps) rest)
    ∙ pieces-cr (32 ∷ p) (fold_more ps ++ rest) (omega arith, h.0)
    ∙ ap (◌∷◌ (with_cr (32 ∷ p))) (pieces-fold_more ps rest h.1)

pub pieces-fold_text :
    (ls : List FoldedLine) → All IsFoldable ls → pieces 10 (fold_text ls) ≡ physical ls
unfolding physical
pieces-fold_text [] h = unfold pieces in refl
pieces-fold_text (l ∷ ls) h =
    pieces-cr (l.head ∷ l.tail) (fold_more l.more ++ fold_text ls) h.0.first
    ∙ ap (◌∷◌ (with_cr (l.head ∷ l.tail))) (
        pieces-fold_more l.more (fold_text ls) h.0.rest
        ∙ ap (◌++◌ (conts l.more)) (pieces-fold_text ls h.1))

pub strip_cr-with_cr : (s : Text) → strip_cr (with_cr s) ≡ s
unfolding strip_cr with_cr
strip_cr-with_cr s = rw (get_last?-append_one s 13, strip_cr) (drop_last-append_one s 13)

-- What `unfold` has written so far, with its last line ended.
settle : Text → Text
settle out = if is_empty out || ends_line out then out else out ++ 10 ∷ []

glue-append :
    (c d : ℕ) (b : Bool) (r ls : List Text)
    → glue c ((if b then [] ∷ r else glue d r) ++ ls)
      ≡ glue c (if b then [] ∷ r else glue d r) ++ ls
glue-append c d true r ls = refl
glue-append c d false [] ls = refl
glue-append c d false (x ∷ r) ls = refl

glue-pieces :
    (c d : ℕ) (s : Text) (ls : List Text)
    → glue c (pieces 10 (d ∷ s) ++ ls) ≡ glue c (pieces 10 (d ∷ s)) ++ ls
unfolding pieces
glue-pieces c d s ls = glue-append c d (d == 10) (pieces 10 s) ls

pieces-ended :
    (c : ℕ) (s x : Text)
    → ends_line (c ∷ s) ≡ true
    → pieces 10 ((c ∷ s) ++ x) ≡ pieces 10 (c ∷ s) ++ pieces 10 x
unfolding pieces
pieces-ended c [] x h = ground arith
pieces-ended c (d ∷ s) x h = ground (arith, pieces-ended d s x, glue-pieces c d s (pieces 10 x))

pieces-not_ended :
    (c : ℕ) (s x : Text)
    → ends_line (c ∷ s) ≡ false
    → pieces 10 ((c ∷ s) ++ 10 ∷ x) ≡ pieces 10 (c ∷ s) ++ pieces 10 x
unfolding pieces
pieces-not_ended c [] x h = ground arith
pieces-not_ended c (d ∷ s) x h =
    ground (arith, pieces-not_ended d s x, glue-pieces c d s (pieces 10 x))

pieces-settle : (out x : Text) → pieces 10 (settle out ++ x) ≡ pieces 10 out ++ pieces 10 x
unfolding settle
pieces-settle [] x = unfold pieces in refl
pieces-settle (c ∷ s) x =
    ground (arith, pieces-ended c s x, pieces-not_ended c s x, append_assoc (c ∷ s) (10 ∷ []) x)

ends_line-content :
    (out : Text) (c : ℕ) (s : Text) → IsContent (c ∷ s) → ends_line (out ++ c ∷ s) ≡ false
ends_line-content [] c [] h = ground arith
ends_line-content [] c (d ∷ s) h = ends_line-content [] d s h.1
ends_line-content (x ∷ []) c s h = ends_line-content [] c s h
ends_line-content (x ∷ y ∷ out) c s h = ends_line-content (y ∷ out) c s h

unfold_line-cont : (out p : Text) → ends_line out ≡ false → unfold_line out (32 ∷ p) ≡ out ++ p
unfolding unfold_line
unfold_line-cont out p h = ground arith

-- The first continuation takes the end of its line away.
unfold_line-first_cont : (o p : Text) → unfold_line (o ++ 10 ∷ []) (32 ∷ p) ≡ o ++ p
unfolding unfold_line
unfold_line-first_cont o p = ground (arith, get_last?-append_one o 10, drop_last-append_one o 10)

unfold_line-first :
    (out : Text) (c : ℕ) (s : Text)
    → c ≢ 32
    → c ≢ 9
    → unfold_line out (c ∷ s) ≡ (settle out ++ c ∷ s) ++ 10 ∷ []
unfolding unfold_line settle
unfold_line-first out c s h k = ground arith

-- Continuations are appended to a line that is not ended.
unfold_lines-conts :
    (out : Text) (c : ℕ) (s : Text) (ps rest : List Text)
    → IsContent (c ∷ s)
    → All IsContent ps
    → unfold_lines (out ++ c ∷ s) (conts ps ++ rest)
      ≡ unfold_lines (out ++ c ∷ (s ++ concat ps)) rest
unfolding conts unfold_lines
unfold_lines-conts out c s [] rest h hs =
    ap (λ t. unfold_lines (out ++ c ∷ t) rest) (sym (append-nil s))
unfold_lines-conts out c s (p ∷ ps) rest h hs =
    ap (λ t. unfold_lines t (conts ps ++ rest))
      (ap (unfold_line (out ++ c ∷ s)) (strip_cr-with_cr (32 ∷ p))
        ∙ unfold_line-cont (out ++ c ∷ s) p (ends_line-content out c s h)
        ∙ append_assoc out (c ∷ s) p)
    ∙ unfold_lines-conts out c (s ++ p) ps rest (All-append _ (c ∷ s) p h hs.0) hs.1
    ∙ ap (λ t. unfold_lines (out ++ c ∷ t) rest) (append_assoc s p (concat ps))

IsContent-concat : (ps : List Text) → All IsContent ps → IsContent (concat ps)
IsContent-concat [] h = tt
IsContent-concat (p ∷ ps) h = All-append _ p (concat ps) h.0 (IsContent-concat ps h.1)

-- What is written once a line and its continuations are read.
after_line : Text → ℕ → Text → List Text → Text
after_line out c s [] = (settle out ++ c ∷ s) ++ 10 ∷ []
after_line out c s (p ∷ ps) = settle out ++ c ∷ ((s ++ p) ++ concat ps)

unfold_lines-folded :
    (out : Text) (c : ℕ) (s : Text) (ps rest : List Text)
    → c ≢ 32
    → c ≢ 9
    → IsContent (c ∷ s)
    → All IsContent ps
    → unfold_lines out (with_cr (c ∷ s) ∷ (conts ps ++ rest))
      ≡ unfold_lines (after_line out c s ps) rest
unfolding unfold_lines conts after_line
unfold_lines-folded out c s [] rest h k first more =
    ap (λ t. unfold_lines t rest)
      (ap (unfold_line out) (strip_cr-with_cr (c ∷ s)) ∙ unfold_line-first out c s h k)
unfold_lines-folded out c s (p ∷ ps) rest h k first more =
    ap (λ t. unfold_lines (unfold_line t (strip_cr (with_cr (32 ∷ p)))) (conts ps ++ rest))
      (ap (unfold_line out) (strip_cr-with_cr (c ∷ s)) ∙ unfold_line-first out c s h k)
    ∙ ap (λ t. unfold_lines t (conts ps ++ rest))
        (ap (unfold_line ((settle out ++ c ∷ s) ++ 10 ∷ [])) (strip_cr-with_cr (32 ∷ p))
          ∙ unfold_line-first_cont (settle out ++ c ∷ s) p
          ∙ append_assoc (settle out) (c ∷ s) p)
    ∙ unfold_lines-conts (settle out) c (s ++ p) ps rest (All-append _ (c ∷ s) p first more.0)
        more.1

pieces-after_line :
    (out : Text) (c : ℕ) (s : Text) (ps : List Text)
    → IsContent (c ∷ s)
    → All IsContent ps
    → pieces 10 (after_line out c s ps) ≡ pieces 10 out ++ (c ∷ (s ++ concat ps)) ∷ []
unfolding after_line
pieces-after_line out c s [] first more =
    ap (pieces 10) (append_assoc (settle out) (c ∷ s) (10 ∷ []))
    ∙ pieces-settle out ((c ∷ s) ++ 10 ∷ [])
    ∙ ap (◌++◌ (pieces 10 out)) (
        pieces-line 10 (c ∷ s) [] first
        ∙ unfold pieces in ap (λ t. (c ∷ t) ∷ []) (sym (append-nil s)))
pieces-after_line out c s (p ∷ ps) first more =
    pieces-settle out (c ∷ ((s ++ p) ++ concat ps))
    ∙ ap (◌++◌ (pieces 10 out)) (
        pieces-last 10 c ((s ++ p) ++ concat ps) (
          All-append _ (c ∷ (s ++ p)) (concat ps) (All-append _ (c ∷ s) p first more.0)
            (IsContent-concat ps more.1))
        ∙ ap (λ t. (c ∷ t) ∷ []) (append_assoc s p (concat ps)))

pieces-unfold_lines :
    (out : Text) (ls : List FoldedLine)
    → All IsFoldable ls
    → pieces 10 (unfold_lines out (physical ls)) ≡ pieces 10 out ++ map logical ls
unfolding physical
pieces-unfold_lines out [] h = unfold unfold_lines in sym (append-nil (pieces 10 out))
pieces-unfold_lines out (l ∷ ls) h =
    let written = after_line out l.head l.tail l.more in
    ap (pieces 10) (
      unfold_lines-folded out l.head l.tail l.more (physical ls) h.0.not_blank.0 h.0.not_blank.1
        h.0.first h.0.rest)
    ∙ pieces-unfold_lines written ls h.1
    ∙ ap (λ t. t ++ map logical ls) (pieces-after_line out l.head l.tail l.more h.0.first h.0.rest)
    ∙ append_assoc (pieces 10 out) (logical l ∷ []) (map logical ls)

-- Unfolding undoes folding: of a text whose lines were folded anywhere, in whatever number of
-- pieces, `unfold` makes a text whose lines are the ones that were meant.
pub unfold_text-fold_text :
    (ls : List FoldedLine)
    → All IsFoldable ls
    → pieces 10 (unfold_text (fold_text ls)) ≡ map logical ls
unfolding unfold_text pieces
unfold_text-fold_text ls h =
    ap (λ t. pieces 10 (unfold_lines [] t)) (pieces-fold_text ls h) ∙ pieces-unfold_lines [] ls h
