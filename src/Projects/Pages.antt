-- ===== src/Projects/Pages.antt =====
-- `list_project_page` of backend/app/services.py with its cursors. base64, the text of a time in seconds
-- and its reading are parameters; of a card it is kept the project. Times are numbers of microseconds.
use groundloom.Base.{
  and_then, ℕ, zero, suc, max, min, String, Bool, Option, none, some, List, [], ◌∷◌, ◌++◌, ◌==◌,
  ◌&&◌, ◌||◌, keep, take, length, ltb, nat_eq, if◌then◌else◌,
}
use groundloom.Encoded.{strip_padding, padding, missing, join, split_first}
use groundloom.Store.{
  Project, RuntimeContext, Result, ok, err, error, invalid_cursor, no_result_found, or_raise, ◌>>=◌,
}
use groundloom.Projects.Texts.{less}

pub record CursorCodec : Type 0 where
  pub stamp : ℕ → String
  pub read_stamp : String → Option ℕ
  pub b64encode : String → String
  pub b64decode : String → Option String

-- After a row with this time and id, in the descending order of times and then of ids.
abbrev pub is_after : ℕ → String → Project → Bool
is_after updated_at id p =
    ltb p.updated_at updated_at || (nat_eq p.updated_at updated_at && less p.id id)

abbrev pub precedes : Project → Project → Bool
precedes p q = is_after p.updated_at p.id q

-- `order_by(Project.updated_at.desc(), Project.id.desc())`
abbrev pub insert_row : Project → List Project → List Project
insert_row p [] = p ∷ []
insert_row p (q ∷ qs) = let rest = insert_row p qs in if precedes p q then p ∷ q ∷ qs else q ∷ rest

abbrev pub order_rows : List Project → List Project
order_rows [] = []
order_rows (p ∷ ps) = insert_row p (order_rows ps)

-- All projects of the caller's workspace, in the order of the pages.
unfoldable pub listing : RuntimeContext → List Project → List Project
listing ctx projects = order_rows (keep (λ p. p.workspace_id == ctx.workspace_id) projects)

pub record Page : Type 0 where
  pub items : List Project
  pub next_cursor : Option String

unfoldable pub page_size : ℕ → ℕ
page_size limit = max 1 (min limit 100)

abbrev pub last : List Project → Option Project
last [] = none
last (p ∷ []) = some p
last (p ∷ q ∷ qs) = last (q ∷ qs)

module _ (codec : CursorCodec) where
  open codec use {stamp, read_stamp, b64encode, b64decode}

  abbrev pub raw_cursor : Project → String
  raw_cursor p = join (stamp p.updated_at) (String.◌∷◌ ":" p.id)

  -- `_project_page_cursor`
  unfoldable pub project_page_cursor : Project → String
  project_page_cursor p = strip_padding (b64encode (raw_cursor p))

  abbrev pub read_raw : String × String → Option (ℕ × String)
  read_raw (timestamp, id) = and_then (read_stamp timestamp) (λ t. some (t, id))

  -- `_decode_project_page_cursor`
  unfoldable pub decode_project_page_cursor : String → Result (ℕ × String)
  decode_project_page_cursor cursor =
      or_raise
        (and_then (b64decode (join cursor (padding (missing cursor))))
          (λ raw. and_then (split_first 58 raw) read_raw))
        (error invalid_cursor 400)

  -- The rows of the query, before its limit.
  unfoldable pub query_rows : RuntimeContext → Option String → List Project → Result (List Project)
  unfolding listing decode_project_page_cursor
  query_rows ctx none projects = ok (listing ctx projects)
  query_rows ctx (some cursor) projects =
      if cursor == ""
      then ok (listing ctx projects)
      else (decode_project_page_cursor cursor >>= λ at.
          ok (keep (is_after at.0 at.1) (listing ctx projects)))

  abbrev pub cursor_of : Option Project → Option String
  cursor_of none = none
  cursor_of (some p) = some (project_page_cursor p)

  abbrev pub page_of : List Project → List Project → Page
  page_of rows page_rows = record {
    items = page_rows;
    next_cursor = if ltb (length page_rows) (length rows) then cursor_of (last page_rows) else none;
  }

  unfoldable pub list_project_page : RuntimeContext → ℕ → Option String → List Project → Result Page
  unfolding query_rows
  list_project_page ctx limit cursor projects = query_rows ctx cursor projects >>= λ found.
      let rows = take (suc (page_size limit)) found in
      ok (page_of rows (take (page_size limit) rows))

  -- A client that asks for page after page, at most as often as its fuel.
  unfoldable pub follow :
      RuntimeContext → ℕ → List Project → ℕ → Option String → Result (List Project)
  follow ctx limit projects zero cursor = err no_result_found
  follow ctx limit projects (suc fuel) cursor =
      list_project_page ctx limit cursor projects >>= λ page. elim page.next_cursor [
        | none ↦ ok page.items
        | some c ↦ follow ctx limit projects fuel (some c) >>= λ rest. ok (page.items ++ rest)
      ]
