-- ===== src/Migrations/History/Newlines.antt =====
-- The newlines of a statement: migration_history.mts, normalizeStatement.
use rehearsal_db.Common.{
  ◌≡◌, refl, ap, ◌∙◌, ◌≢◌, ◌⊎◌, inl, inr, List, [], ◌∷◌, ◌++◌, Text, All, All-map, arith, ℕ,
}
use rehearsal_db.Migrations.History.Rows.{replace_crlf, replace_cr, normalize_newlines}

abbrev pub NoReturns : Text → Type 0
NoReturns s = All (λ c. c ≢ 13) s

replace_cr-NoReturns : (s : Text) → NoReturns (replace_cr s)
unfolding replace_cr
replace_cr-NoReturns [] = tt
replace_cr-NoReturns (c ∷ s) = (ground arith, replace_cr-NoReturns s)

replace_cr_of_NoReturns : (s : Text) → NoReturns s → replace_cr s ≡ s
unfolding replace_cr
replace_cr_of_NoReturns [] h = refl
replace_cr_of_NoReturns (c ∷ s) (n, h) = ground (arith, replace_cr_of_NoReturns s h)

replace_crlf_of_NoReturns : (s : Text) → NoReturns s → replace_crlf s ≡ s
unfolding replace_crlf
replace_crlf_of_NoReturns [] h = refl
replace_crlf_of_NoReturns (c ∷ []) h = refl
replace_crlf_of_NoReturns (c ∷ d ∷ s) (n, h) = ground (arith, replace_crlf_of_NoReturns (d ∷ s) h)

-- A statement without a carriage return is hashed as it is; every normalized statement is one.
normalize_newlines_lem :
    (s : Text) → NoReturns (normalize_newlines s) × (NoReturns s → normalize_newlines s ≡ s)
unfolding normalize_newlines
normalize_newlines_lem s = (
  replace_cr-NoReturns (replace_crlf s),
  λ h. rw (replace_crlf_of_NoReturns s h) (replace_cr_of_NoReturns s h),
)

-- The lines, joined by a newline convention.
abbrev pub encode_newlines : Text → List Text → Text
encode_newlines newline [] = []
encode_newlines newline (l ∷ []) = l
encode_newlines newline (l ∷ m ∷ ls) = l ++ (newline ++ encode_newlines newline (m ∷ ls))

normalize_cons : (c : ℕ) (s : Text) → c ≢ 13 → normalize_newlines (c ∷ s) ≡ c ∷ normalize_newlines s
unfolding normalize_newlines
normalize_cons c [] n = ground arith
normalize_cons c (d ∷ s) n = ground arith

normalize_append :
    (l s : Text) → NoReturns l → normalize_newlines (l ++ s) ≡ l ++ normalize_newlines s
normalize_append [] s h = refl
normalize_append (c ∷ l) s (n, h) =
    normalize_cons c (l ++ s) n ∙ ap (λ (t : Text). c ∷ t) (normalize_append l s h)

normalize_crlf : (s : Text) → normalize_newlines (13 ∷ 10 ∷ s) ≡ 10 ∷ normalize_newlines s
unfolding normalize_newlines
normalize_crlf s = refl

normalize-encode_crlf :
    (lines : List Text)
    → All NoReturns lines
    → normalize_newlines (encode_newlines (13 ∷ 10 ∷ []) lines) ≡ encode_newlines (10 ∷ []) lines
normalize-encode_crlf [] h = unfold normalize_newlines in refl
normalize-encode_crlf (l ∷ []) (p, h) = (normalize_newlines_lem l).1 p
normalize-encode_crlf (l ∷ m ∷ ls) (p, h) =
    normalize_append l _ p
    ∙ ap (λ (t : Text). l ++ t)
        (normalize_crlf (encode_newlines (13 ∷ 10 ∷ []) (m ∷ ls))
          ∙ ap (λ (t : Text). 10 ∷ t) (normalize-encode_crlf (m ∷ ls) h))

normalize-encode_lf :
    (lines : List Text)
    → All NoReturns lines
    → normalize_newlines (encode_newlines (10 ∷ []) lines) ≡ encode_newlines (10 ∷ []) lines
normalize-encode_lf [] h = unfold normalize_newlines in refl
normalize-encode_lf (l ∷ []) (p, h) = (normalize_newlines_lem l).1 p
normalize-encode_lf (l ∷ m ∷ ls) (p, h) =
    normalize_append l _ p
    ∙ ap (λ (t : Text). l ++ t)
        (normalize_cons 10 (encode_newlines (10 ∷ []) (m ∷ ls)) (omega arith)
          ∙ ap (λ (t : Text). 10 ∷ t) (normalize-encode_lf (m ∷ ls) h))

-- The text does not go on with a line feed.
abbrev NoFeed : Text → Type 0
NoFeed [] = Unit
NoFeed (c ∷ s) = c ≢ 10

normalize_cr : (s : Text) → NoFeed s → normalize_newlines (13 ∷ s) ≡ 10 ∷ normalize_newlines s
unfolding normalize_newlines
normalize_cr [] n = refl
normalize_cr (c ∷ s) n = ground arith

-- A line has neither carriage returns nor line feeds.
abbrev pub IsLine : Text → Type 0
IsLine l = All (λ c. (c ≢ 13) × (c ≢ 10)) l

IsLine-NoReturns : (l : Text) → IsLine l → NoReturns l
IsLine-NoReturns l = All-map (λ c. (c ≢ 13) × (c ≢ 10)) (λ c. c ≢ 13) l (λ c n. n.0)

encode_cr-NoFeed :
    (l : Text) (ls : List Text) → IsLine l → NoFeed (encode_newlines (13 ∷ []) (l ∷ ls))
encode_cr-NoFeed [] [] h = tt
encode_cr-NoFeed (c ∷ l) [] (n, h) = n.1
encode_cr-NoFeed [] (m ∷ ls) h = λ e. omega (arith, e)
encode_cr-NoFeed (c ∷ l) (m ∷ ls) (n, h) = n.1

normalize-encode_cr :
    (lines : List Text)
    → All IsLine lines
    → normalize_newlines (encode_newlines (13 ∷ []) lines) ≡ encode_newlines (10 ∷ []) lines
normalize-encode_cr [] h = unfold normalize_newlines in refl
normalize-encode_cr (l ∷ []) (p, h) = (normalize_newlines_lem l).1 (IsLine-NoReturns l p)
normalize-encode_cr (l ∷ m ∷ ls) (p, (q, h)) =
    normalize_append l _ (IsLine-NoReturns l p)
    ∙ ap (λ (t : Text). l ++ t)
        (normalize_cr (encode_newlines (13 ∷ []) (m ∷ ls)) (encode_cr-NoFeed m ls q)
          ∙ ap (λ (t : Text). 10 ∷ t) (normalize-encode_cr (m ∷ ls) (q, h)))

-- CRLF, a lone CR, and LF.
abbrev pub IsNewline : Text → Type 0
IsNewline n = (n ≡ 13 ∷ 10 ∷ []) ⊎ ((n ≡ 13 ∷ []) ⊎ (n ≡ 10 ∷ []))

-- Lines without line breaks of their own, joined by CRLF, by a lone CR or by LF throughout, are
-- normalized to the same lines joined by LF.
pub normalize-encode_newlines :
    (newline : Text) (lines : List Text)
    → IsNewline newline
    → All IsLine lines
    → normalize_newlines (encode_newlines newline lines) ≡ encode_newlines (10 ∷ []) lines
normalize-encode_newlines newline lines n h =
    let free = All-map IsLine NoReturns lines IsLine-NoReturns h in
    elim n [
      | inl e ↦
          ap (λ n. normalize_newlines (encode_newlines n lines)) e
          ∙ normalize-encode_crlf lines free
      | inr (inl e) ↦
          ap (λ n. normalize_newlines (encode_newlines n lines)) e ∙ normalize-encode_cr lines h
      | inr (inr e) ↦
          ap (λ n. normalize_newlines (encode_newlines n lines)) e ∙ normalize-encode_lf lines free
    ]
