-- ===== src/Projects/Paging.antt =====
-- Cursors that are read back, and a client that follows them.
use groundloom.Base.{
  ℕ, zero, suc, ◌-◌, ◌<◌, max, min, String, Bool, true, false, Option, none, some, List, [], ◌∷◌,
  ◌++◌, keep, take, length, ltb, All, append_assoc, ◌≡◌, ◌≢◌, refl, arith, inl, inr, ◌⊎◌, eq_false,
  sym, ◌∙◌, ap, subst, length-append,
}
use groundloom.Encoded.Laws.{
  IsPadded, has_char, split_first-join, strip_padding-whole, join-missing,
}
use groundloom.Store.{Project, RuntimeContext, ok}
use groundloom.Projects.Pages.{
  CursorCodec, precedes, listing, page_size, last, raw_cursor, project_page_cursor,
  decode_project_page_cursor, query_rows, page_of, list_project_page, follow,
}
use groundloom.Projects.Order.{
  IsOrdered, IsKeyed, listing-IsOrdered, All-listing, keep-after, in_the_middle,
}

-- What the codec promises for the cursor of one project.
pub record IsReadBack (codec : CursorCodec) (p : Project) : Type 0 where
  pub time : codec.read_stamp (codec.stamp p.updated_at) ≡ some p.updated_at
  pub no_colon : has_char 58 (codec.stamp p.updated_at) ≡ false
  pub bytes : codec.b64decode (codec.b64encode (raw_cursor codec p)) ≡ some (raw_cursor codec p)
  pub padded : IsPadded (codec.b64encode (raw_cursor codec p))
  pub not_empty : padded.core ≢ ""

cursor-core :
    (codec : CursorCodec) (p : Project) (h : IsReadBack codec p)
    → project_page_cursor codec p ≡ h.padded.core
unfolding project_page_cursor
cursor-core codec p h = strip_padding-whole h.padded

decode-core :
    (codec : CursorCodec) (p : Project) (h : IsReadBack codec p)
    → decode_project_page_cursor codec h.padded.core ≡ ok (p.updated_at, p.id)
unfolding decode_project_page_cursor
decode-core codec p h =
    rw (ap codec.b64decode (join-missing h.padded) ∙ h.bytes)
      (rw (split_first-join ":" (codec.stamp p.updated_at) p.id h.no_colon) (rw h.time refl))

-- The query of a cursor finds the rows after the project it names.
query_rows-cursor :
    (codec : CursorCodec) (ctx : RuntimeContext) (projects before : List Project) (p : Project)
    (after : List Project)
    → IsReadBack codec p
    → listing ctx projects ≡ before ++ p ∷ after
    → IsOrdered (listing ctx projects)
    → query_rows codec ctx (some (project_page_cursor codec p)) projects ≡ ok after
unfolding query_rows
query_rows-cursor codec ctx projects before p after h e ordered = rw (cursor-core codec p h) (
    rw (eq_false h.padded.core "" h.not_empty) (
      rw (decode-core codec p h)
        (ap ok (ap (keep (precedes p)) e ∙ keep-after before p after (subst IsOrdered e ordered)))))

take-take : (n : ℕ) (rows : List Project) → take n (take (suc n) rows) ≡ take n rows
take-take zero rows = refl
take-take (suc n) [] = refl
take-take (suc n) (p ∷ ps) = ap (λ l. p ∷ l) (take-take n ps)

last-append : (init : List Project) (p : Project) → last (init ++ p ∷ []) ≡ some p
last-append [] p = refl
last-append (q ∷ []) p = refl
last-append (q ∷ r ∷ init) p = last-append (r ∷ init) p

-- More than n rows.
abbrev has_more : ℕ → List Project → Bool
has_more n rows = ltb (length (take n rows)) (length (take (suc n) rows))

-- Rows after the first n, the last of which is p.
record IsCut (n : ℕ) (rows : List Project) : Type 0 where
  init : List Project
  p : Project
  rest : List Project
  more : has_more n rows ≡ true
  whole : rows ≡ init ++ p ∷ rest
  page : take n rows ≡ init ++ p ∷ []

-- A page is all there is, or it has a last row and there are rows after it.
cut :
    (n : ℕ) (rows : List Project)
    → ((has_more (suc n) rows ≡ false) × (take (suc n) rows ≡ rows)) ⊎ IsCut (suc n) rows
cut n [] = inl (refl, refl)
cut zero (p ∷ []) = inl (refl, refl)
cut zero (p ∷ q ∷ qs) =
    inr (record { init = []; p = p; rest = q ∷ qs; more = refl; whole = refl; page = refl })
cut (suc n) (p ∷ rows) = elim (cut n rows) [
  | inl h ↦ inl (ground (arith, h.0), ap (λ l. p ∷ l) h.1)
  | inr h ↦ inr (record {
    init = p ∷ h.init;
    p = h.p;
    rest = h.rest;
    more = ground (arith, h.more);
    whole = ap (λ l. p ∷ l) h.whole;
    page = ap (λ l. p ∷ l) h.page;
  })
]

page_size_positive : (limit : ℕ) → (k : ℕ) × (page_size limit ≡ suc k)
unfolding page_size
page_size_positive limit = (max 1 (min limit 100) - 1, omega arith)

module _ (codec : CursorCodec) (ctx : RuntimeContext) (projects : List Project)
    (keyed : IsKeyed projects) (faithful : All (IsReadBack codec) projects) where
  one_page :
      (limit k : ℕ) (cursor : Option String) (rows : List Project)
      → page_size limit ≡ suc k
      → query_rows codec ctx cursor projects ≡ ok rows
      → list_project_page codec ctx limit cursor projects
        ≡ ok (page_of codec (take (suc (suc k)) rows) (take (suc k) rows))
  unfolding list_project_page
  one_page limit k cursor rows e h =
      rw h
        (rw e (ap (λ l. ok (page_of codec (take (suc (suc k)) rows) l)) (take-take (suc k) rows)))

  -- The rows after the last of a page are what its cursor finds.
  next_rows :
      (before rows : List Project) {n : ℕ} (c : IsCut n rows)
      → listing ctx projects ≡ before ++ rows
      → (listing ctx projects ≡ (before ++ c.init) ++ c.p ∷ c.rest)
        × (query_rows codec ctx (some (project_page_cursor codec c.p)) projects ≡ ok c.rest)
  next_rows before rows c e =
      let place : listing ctx projects ≡ (before ++ c.init) ++ c.p ∷ c.rest =
        e ∙ ap (λ l. before ++ l) c.whole ∙ sym (append_assoc before c.init (c.p ∷ c.rest)) in
      let listed = All-listing (IsReadBack codec) ctx projects faithful in
      let read =
        in_the_middle (IsReadBack codec) (before ++ c.init) c.p c.rest
          (subst (All (IsReadBack codec)) place listed) in
      (
        place,
        query_rows-cursor codec ctx projects (before ++ c.init) c.p c.rest read place
            (listing-IsOrdered ctx projects keyed),
      )

  shorter : (rows : List Project) {n : ℕ} (c : IsCut n rows) → length c.rest < length rows
  shorter rows c = ground (arith, ap length c.whole, length-append c.init (c.p ∷ c.rest))

  follow-rest :
      (limit fuel : ℕ) (cursor : Option String) (before rows : List Project)
      → listing ctx projects ≡ before ++ rows
      → query_rows codec ctx cursor projects ≡ ok rows
      → length rows < fuel
      → follow codec ctx limit projects fuel cursor ≡ ok rows
  unfolding follow
  follow-rest limit zero cursor before rows e h less = absurd (omega (arith, less))
  follow-rest limit (suc fuel) cursor before rows e h less =
      let size = page_size_positive limit in
      let page = one_page limit size.0 cursor rows size.1 h in
      elim (cut size.0 rows) [
        | inl c ↦ rw page (rw c.0 (ap ok c.1))
        | inr c ↦
            let after = next_rows before rows c e in
            let rest =
              follow-rest limit fuel (some (project_page_cursor codec c.p))
                ((before ++ c.init) ++ c.p ∷ []) c.rest
                (after.0 ∙ sym (append_assoc (before ++ c.init) (c.p ∷ []) c.rest)) after.1
                (omega (arith, less, shorter rows c)) in
            rw page (
              rw c.more (
                rw c.page (
                  rw (last-append c.init c.p)
                    (rw rest (ap ok (append_assoc c.init (c.p ∷ []) c.rest ∙ sym c.whole))))))
      ]

  -- The pages implement the listing: a client that starts without a cursor and follows the cursors
  -- gets every project of its workspace once, newest first, whatever limit it asks for, and is done
  -- after at most one page more than there are projects; ids are distinct, and base64 and the text of
  -- a time are read back as they were written.
  pub follow-listing :
      (limit : ℕ)
      → follow codec ctx limit projects (suc (length (listing ctx projects))) none
        ≡ ok (listing ctx projects)
  unfolding query_rows
  follow-listing limit =
      follow-rest limit (suc (length (listing ctx projects))) none [] (listing ctx projects) refl
        refl (omega arith)
