-- ===== src/Exports/LocalStore.antt =====
-- `_validate_key` and `LocalObjectStore` of backend/app/object_store.py as an object store. The file
-- system is a parameter: a directory without links, whose files are named by the parts of their path
-- below the root of the store.
use Prim.Native.Char.{Char, code}
use groundloom.Base.{
  String, Bool, true, false, List, [], ◌∷◌, ◌==◌, ◌||◌, not, nat_eq, keep, ◌≡◌, refl, ap, ◌∙◌,
  if◌then◌else◌, Bool-cases, inl, inr,
}
use groundloom.Content.BlockTypes.{mem}
use groundloom.Store.{
  Result, ok, err, is_ok, error, invalid_input, resource_not_found, raise_if, ◌>>=◌, ◌>>◌,
}
use groundloom.Exports.Rows.{ObjectStore}

abbrev add_char : Char → List String → List String
add_char c [] = String.◌∷◌ c String.[] ∷ []
add_char c (w ∷ ws) = String.◌∷◌ c w ∷ ws

-- The text between the slashes.
split_path : String → List String
split_path String.[] = "" ∷ []
split_path (String.◌∷◌ c s) =
    let rest = split_path s in if nat_eq (code c) 47 then "" ∷ rest else add_char c rest

-- `Path(key).parts` of a relative path.
unfoldable pub path_parts : String → List String
unfolding split_path
path_parts key = keep (λ w. not (w == "" || w == ".")) (split_path key)

starts_with_slash : String → Bool
starts_with_slash String.[] = false
starts_with_slash (String.◌∷◌ c s) = nat_eq (code c) 47

has_backslash : String → Bool
has_backslash String.[] = false
has_backslash (String.◌∷◌ c s) = nat_eq (code c) 92 || has_backslash s

unfoldable pub validate_key : String → Result String
unfolding starts_with_slash has_backslash path_parts
validate_key key = do
  raise_if
      (key == "" || (starts_with_slash key || (mem ".." (path_parts key) || has_backslash key)))
      (error invalid_input 422)
  ok key

abbrev is_root : List String → Bool
is_root [] = true
is_root (w ∷ ws) = false

-- `_path`: a key without `..` resolves below the root, or to the root itself.
unfoldable pub path_of : String → Result (List String)
unfolding validate_key path_parts
path_of key = do
  valid ← validate_key key
  raise_if (is_root (path_parts valid)) (error invalid_input 422)
  ok (path_parts valid)

-- The file system: a write that returns can be read, and neither a directory that is made nor a write,
-- also one that fails half way, makes a file unreadable.
pub record Disk (D B : Type 0) : Type 0 where
  pub make_parents : List String → D → Result (Unit {0}) × D
  pub write_bytes : List String → B → D → Result (Unit {0}) × D
  pub exists : List String → D → Bool
  pub read_bytes : List String → D → Result B
  pub exists-read_bytes :
      (path : List String) (d : D) → is_ok (read_bytes path d) ≡ true → exists path d ≡ true
  pub read_bytes-write_bytes :
      (path : List String) (bytes : B) (d : D)
      → (write_bytes path bytes d).0 ≡ ok tt
      → read_bytes path (write_bytes path bytes d).1 ≡ ok bytes
  pub read_bytes-make_parents :
      (path other : List String) (d : D)
      → is_ok (read_bytes other d) ≡ true
      → is_ok (read_bytes other (make_parents path d).1) ≡ true
  pub read_bytes-kept :
      (path other : List String) (bytes : B) (d : D)
      → is_ok (read_bytes other d) ≡ true
      → is_ok (read_bytes other (write_bytes path bytes d).1) ≡ true

module _ {D B : Type 0} (disk : Disk D B) where
  write_below : Result (Unit {0}) × D → List String → B → Result (Unit {0}) × D
  write_below (err e, d) target bytes = (err e, d)
  write_below (ok _, d) target bytes = disk.write_bytes target bytes d

  unfoldable pub put_at : Result (List String) → B → D → Result (Unit {0}) × D
  unfolding write_below
  put_at (err e) bytes d = (err e, d)
  put_at (ok target) bytes d = write_below (disk.make_parents target d) target bytes

  unfoldable pub put_bytes : String → B → D → Result (Unit {0}) × D
  unfolding put_at
  put_bytes key bytes d = put_at (path_of key) bytes d

  unfoldable pub get_at : Result (List String) → D → Result B
  get_at (err e) d = err e
  get_at (ok target) d =
      if disk.exists target d then disk.read_bytes target d else err (error resource_not_found 404)

  unfoldable pub get_bytes : String → D → Result B
  unfolding get_at
  get_bytes key d = get_at (path_of key) d

  -- What is read at a path that exists.
  get_at-read :
      (target : List String) (d : D) (r : Result B)
      → disk.read_bytes target d ≡ r
      → is_ok r ≡ true
      → get_at (ok target) d ≡ r
  unfolding get_at
  get_at-read target d r e h = rw (disk.exists-read_bytes target d (ap is_ok e ∙ h), e) refl

  get_at-is_ok :
      (target : List String) (d : D)
      → is_ok (get_at (ok target) d) ≡ true
      → is_ok (disk.read_bytes target d) ≡ true
  unfolding get_at
  get_at-is_ok target d h = elim (Bool-cases (disk.exists target d)) [
    | inl e ↦ rw e at h
    | inr e ↦ (let no = rw e at h in absurd (cc no))
  ]

  put_at-read :
      (target : List String) (bytes : B) (r : Result (Unit {0}) × D)
      → (write_below r target bytes).0 ≡ ok tt
      → disk.read_bytes target (write_below r target bytes).1 ≡ ok bytes
  unfolding write_below
  put_at-read target bytes (err e, d) h = cc h
  put_at-read target bytes (ok _, d) h = disk.read_bytes-write_bytes target bytes d h

  pub get_at-put_at :
      (p : Result (List String)) (bytes : B) (d : D)
      → (put_at p bytes d).0 ≡ ok tt
      → get_at p (put_at p bytes d).1 ≡ ok bytes
  unfolding put_at
  get_at-put_at (err e) bytes d h = cc h
  get_at-put_at (ok target) bytes d h =
      get_at-read target _ (ok bytes) (put_at-read target bytes (disk.make_parents target d) h) refl

  write_below-kept :
      (target other : List String) (bytes : B) (r : Result (Unit {0}) × D)
      → is_ok (disk.read_bytes other r.1) ≡ true
      → is_ok (disk.read_bytes other (write_below r target bytes).1) ≡ true
  unfolding write_below
  write_below-kept target other bytes (err e, d) h = h
  write_below-kept target other bytes (ok _, d) h = disk.read_bytes-kept target other bytes d h

  put_at-kept :
      (p : Result (List String)) (other : List String) (bytes : B) (d : D)
      → is_ok (disk.read_bytes other d) ≡ true
      → is_ok (disk.read_bytes other (put_at p bytes d).1) ≡ true
  unfolding put_at
  put_at-kept (err e) other bytes d h = h
  put_at-kept (ok target) other bytes d h =
      write_below-kept target other bytes (disk.make_parents target d)
        (disk.read_bytes-make_parents target other d h)

  pub get_at-kept :
      (p q : Result (List String)) (bytes : B) (d : D)
      → is_ok (get_at q d) ≡ true
      → is_ok (get_at q (put_at p bytes d).1) ≡ true
  unfolding get_at put_at
  get_at-kept p (err e) bytes d h = h
  get_at-kept p (ok other) bytes d h =
      let still = put_at-kept p other bytes d (get_at-is_ok other d h) in
      ap is_ok (get_at-read other (put_at p bytes d).1 _ refl still) ∙ still

  -- The local store keeps what the export service asks of an object store.
  unfoldable pub local_object_store : ObjectStore D B
  unfolding put_bytes get_bytes
  local_object_store = record {
    put_bytes = put_bytes;
    get_bytes = get_bytes;
    get_bytes-put_bytes = λ key bytes d h. get_at-put_at (path_of key) bytes d h;
    get_bytes-kept = λ key other bytes d h. get_at-kept (path_of key) (path_of other) bytes d h;
  }
