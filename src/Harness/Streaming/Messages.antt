-- ===== src/Harness/Streaming/Messages.antt =====
-- The messages that a stream leaves: the table of places is an index of the messages, so a message
-- replaces the one with its id.
use groundloom.Base.{
  ℕ, zero, suc, String, Bool, true, false, Option, none, some, List, [], ◌∷◌, ◌++◌, ◌==◌, ◌≡◌, refl,
  arith, inl, inr, length, find, find_index, if◌then◌else◌, Bool-cases, text-cases, Option-cases,
  eq_iff, eq_refl, sym, ◌∙◌, ap, subst,
}
use groundloom.Harness.Streaming.{
  Message, message_id, Collected, position, set_at, remember_by, remember_messages,
  nothing_collected,
}

abbrev pub carries : String → Option String → Bool
carries i none = false
carries i (some j) = j == i

abbrev pub has_message_id : String → Message → Bool
has_message_id i m = carries i (message_id m)

-- Without an index: the first message with the id is replaced, or else the new one is appended.
abbrev pub upsert_at : String → Message → List Message → List Message
upsert_at i m [] = m ∷ []
upsert_at i m (x ∷ xs) = if has_message_id i x then m ∷ xs else x ∷ upsert_at i m xs

abbrev pub upsert_by : Option String → Message → List Message → List Message
upsert_by none m xs = xs ++ m ∷ []
upsert_by (some i) m xs = upsert_at i m xs

abbrev pub upsert_all : List Message → List Message → List Message
upsert_all [] xs = xs
upsert_all (m ∷ ms) xs = upsert_all ms (upsert_by (message_id m) m xs)

abbrev pub IsIndexed : Collected → Type 0
IsIndexed c = (i : String) → position i c.positions ≡ find_index (has_message_id i) c.target

abbrev or_last : Option ℕ → Bool → ℕ → Option ℕ
or_last none b n = if b then some n else none
or_last (some k) b n = some k

find_index-snoc :
    {A : Type 0} (p : A → Bool) (xs : List A) (a : A)
    → find_index p (xs ++ a ∷ []) ≡ or_last (find_index p xs) (p a) (length xs)
find_index-snoc p [] a = ground arith
find_index-snoc p (x ∷ xs) a = ground (arith, find_index-snoc p xs a)

upsert_at-missing :
    (i : String) (m : Message) (xs : List Message)
    → find_index (has_message_id i) xs ≡ none
    → upsert_at i m xs ≡ xs ++ m ∷ []
upsert_at-missing i m [] h = refl
upsert_at-missing i m (x ∷ xs) h = ground (arith, upsert_at-missing i m xs)

set_at-upsert_at :
    (i : String) (m : Message) (xs : List Message) (n : ℕ)
    → find_index (has_message_id i) xs ≡ some n
    → set_at n m xs ≡ upsert_at i m xs
set_at-upsert_at i m [] n h = cc
set_at-upsert_at i m (x ∷ xs) zero h = ground arith
set_at-upsert_at i m (x ∷ xs) (suc n) h = ground (arith, set_at-upsert_at i m xs n)

carries-same : (i j : String) (o : Option String) → carries i o ≡ true → carries j o ≡ (i == j)
carries-same i j none h = cc
carries-same i j (some k) h = ground (arith, eq_iff k i, eq_iff k j, eq_iff i j)

find_index-set_at :
    (i j : String) (m : Message) (xs : List Message) (n : ℕ)
    → has_message_id i m ≡ true
    → find_index (has_message_id i) xs ≡ some n
    → find_index (has_message_id j) (set_at n m xs) ≡ find_index (has_message_id j) xs
find_index-set_at i j m [] n k h = cc
find_index-set_at i j m (x ∷ xs) zero k h =
    ground (arith, carries-same i j (message_id m) k, carries-same i j (message_id x))
find_index-set_at i j m (x ∷ xs) (suc n) k h = ground (arith, find_index-set_at i j m xs n k)

or_last-false : (o : Option ℕ) (b : Bool) (n : ℕ) → b ≡ false → or_last o b n ≡ o
or_last-false none b n h = ground arith
or_last-false (some k) b n h = refl

carries_own : (i : String) (m : Message) → message_id m ≡ some i → has_message_id i m ≡ true
carries_own i m e = rw e (eq_refl i)

-- The place that a new id gets, and the places of the others.
place_of_new :
    (i j : String) (m : Message) (c : Collected)
    → message_id m ≡ some i
    → IsIndexed c
    → find_index (has_message_id i) c.target ≡ none
    → (if i == j then some (length c.target) else position j c.positions)
      ≡ or_last (find_index (has_message_id j) c.target) (has_message_id j m) (length c.target)
place_of_new i j m c e h absent = elim (text-cases i j) [
  | inl same ↦
      let missing = subst (λ k. find_index (has_message_id k) c.target ≡ none) same absent in
      let here = (eq_iff i j).1 same in rw e (rw missing (rw here refl))
  | inr (differ, _) ↦ rw e (
      rw differ (
        h j
        ∙ sym
            (or_last-false (find_index (has_message_id j) c.target) false (length c.target) refl)))
]

-- One message is placed as the reference places it, and the table stays an index.
remember_by-upsert :
    (m : Message) (o : Option String) (c : Collected)
    → message_id m ≡ o
    → IsIndexed c
    → ((remember_by o m c).target ≡ upsert_by o m c.target) × IsIndexed (remember_by o m c)
remember_by-upsert m none c e h = (
  refl,
  λ j.
      h j
      ∙ sym (
          find_index-snoc (has_message_id j) c.target m
          ∙ or_last-false (find_index (has_message_id j) c.target) (has_message_id j m)
              (length c.target) (rw e refl)),
)
remember_by-upsert m (some i) c e h = elim (Option-cases (find_index (has_message_id i) c.target)) [
  | inl absent ↦ rw (h i ∙ absent) (
    sym (upsert_at-missing i m c.target absent),
    λ j. place_of_new i j m c e h absent ∙ sym (find_index-snoc (has_message_id j) c.target m),
  )
  | inr (n, found) ↦ rw (h i ∙ found) (
    set_at-upsert_at i m c.target n found,
    λ j. h j ∙ sym (find_index-set_at i j m c.target n (carries_own i m e) found),
  )
]

remember_messages-upsert :
    (ms : List Message) (c : Collected)
    → IsIndexed c
    → ((remember_messages ms c).target ≡ upsert_all ms c.target)
      × IsIndexed (remember_messages ms c)
unfolding remember_messages
remember_messages-upsert [] c h = (refl, h)
remember_messages-upsert (m ∷ ms) c h =
    let one = remember_by-upsert m (message_id m) c refl h in
    let rest = remember_messages-upsert ms (remember_by (message_id m) m c) one.1 in
    (rest.0 ∙ ap (upsert_all ms) one.0, rest.1)

-- The last message with the id.
abbrev pub last_with : String → List Message → Option Message → Option Message
last_with i [] o = o
last_with i (m ∷ ms) o = last_with i ms (if has_message_id i m then some m else o)

if_twice :
    {A : Type 0} (b : Bool) (x y z : A)
    → (if b then x else z) ≡ (if b then x else if b then y else z)
if_twice true x y z = refl
if_twice false x y z = refl

-- A message that does not carry one id carries no equal one.
differing :
    {A : Type 0} (i k : String) (x : Message) (a b z : A)
    → has_message_id k x ≡ false
    → (if has_message_id i x then b else if k == i then a else z)
      ≡ (if k == i then a else if has_message_id i x then b else z)
differing i k x a b z h = elim (text-cases k i) [
  | inl same ↦ let other = subst (λ j. has_message_id j x ≡ false) same h in rw other refl
  | inr (differ, _) ↦ rw differ refl
]

find-upsert_at :
    (i k : String) (m : Message) (xs : List Message)
    → has_message_id k m ≡ true
    → find (has_message_id i) (upsert_at k m xs)
      ≡ (if has_message_id i m then some m else find (has_message_id i) xs)
find-upsert_at i k m [] h = refl
find-upsert_at i k m (x ∷ xs) h = elim (Bool-cases (has_message_id k x)) [
  | inl e ↦ rw e (
      rw (carries-same k i (message_id m) h)
        (rw (carries-same k i (message_id x) e) (if_twice (k == i) (some m) (some x) _)))
  | inr e ↦ rw e (
      rw (find-upsert_at i k m xs h)
        (rw (carries-same k i (message_id m) h) (differing i k x (some m) (some x) _ e)))
]

find-append :
    (p : Message → Bool) (m : Message) (xs : List Message)
    → p m ≡ false
    → find p (xs ++ m ∷ []) ≡ find p xs
find-append p m [] h = rw h refl
find-append p m (x ∷ xs) h = rw (find-append p m xs h) refl

find-upsert_by :
    (i : String) (m : Message) (o : Option String) (xs : List Message)
    → message_id m ≡ o
    → find (has_message_id i) (upsert_by o m xs)
      ≡ (if has_message_id i m then some m else find (has_message_id i) xs)
find-upsert_by i m none xs e =
    let other : has_message_id i m ≡ false = rw e refl in
    find-append (has_message_id i) m xs other ∙ sym (rw other refl)
find-upsert_by i m (some k) xs e = find-upsert_at i k m xs (carries_own k m e)

find-upsert_all :
    (i : String) (ms xs : List Message)
    → find (has_message_id i) (upsert_all ms xs) ≡ last_with i ms (find (has_message_id i) xs)
find-upsert_all i [] xs = refl
find-upsert_all i (m ∷ ms) xs =
    find-upsert_all i ms (upsert_by (message_id m) m xs)
    ∙ ap (last_with i ms) (find-upsert_by i m (message_id m) xs refl)

-- The messages collected from nothing are those that replacing by id gives without the table of
-- places, so the table always points at the message that has the id.
pub remember_messages-upsert_all :
    (ms : List Message) → (remember_messages ms nothing_collected).target ≡ upsert_all ms []
remember_messages-upsert_all ms = (remember_messages-upsert ms nothing_collected (λ i. refl)).0

-- For every id, the message with that id that is collected is the last one that came with it.
pub find-remember_messages :
    (i : String) (ms : List Message)
    → find (has_message_id i) (remember_messages ms nothing_collected).target ≡ last_with i ms none
find-remember_messages i ms =
    ap (find (has_message_id i)) (remember_messages-upsert_all ms) ∙ find-upsert_all i ms []
