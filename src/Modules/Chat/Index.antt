-- ===== src/Modules/Chat/Index.antt =====
-- The orders of the spaces and the table of messages agree.
use mathlib.Core.Path.{subst}
use jetty.Prelude.{
  ℕ, ◌≤◌, ◌<◌, true, false, not, Option, none, some, List, [], ◌∷◌, ◌++◌, ◌≡◌, ◌≢◌, inl, inr, refl,
  sym, ap, ◌∙◌, arith, ◌==◌, ◌&&◌, ◌||◌, if◌then◌else◌, Bool-cases, Option-cases, contains,
  contains-append, Distinct,
}
use jetty.Prelude.Dict.{Dict, get_or, has, put, get-put}
use jetty.Prelude.Text.{Str, str_eq}
use jetty.Modules.Chat.{Attachment, Quote, Message, MessageQuery, thread_key_eq}
use jetty.Modules.Chat.Names.{slashes, space_of-message_name, message_name-injective}
use jetty.Modules.Chat.Mock.{Chat, failed, lookup_error, insert_in, message_name, space_of}
use jetty.Modules.Chat.Messages.{rows_of, list_messages, remove_first}

-- Each order lists, once each, the messages of its space; every message is listed; and the names
-- that the counter will give are free.
pub record IsIndexed (c : Chat) : Type 0 where
  pub listed :
      (s n : Str) → contains (get_or c.order s []) n ≡ (has c.messages n && (space_of n == s))
  pub once : (s : Str) → Distinct (get_or c.order s [])
  pub fresh :
      (s : Str) (k : ℕ) → slashes s ≡ 1 → c.counter ≤ k → has c.messages (message_name s k) ≡ false

rows_of-total :
    (d : Dict Str Message) (ns : List Str)
    → ((n : Str) → contains ns n ≡ true → has d n ≡ true)
    → rows_of d ns ≢ none
unfolding rows_of
rows_of-total d [] h e = cc
rows_of-total d (n ∷ ns) h e = ground (arith, h n, rows_of-total d ns (λ m g. h m (ground arith)))

-- `list_messages` never fails on a lookup.
pub list_messages-found :
    (space : Str) (query : MessageQuery) (c : Chat)
    → IsIndexed c
    → list_messages space query c ≢ failed lookup_error
unfolding list_messages
list_messages-found space query c i e =
    let total =
      rows_of-total c.messages (get_or c.order space [])
        (λ n g. ground (arith, i.listed space n)) in
    elim (Option-cases (rows_of c.messages (get_or c.order space []))) [
      | inl q ↦ total q
      | inr (rows, q) ↦ ground arith
    ]

Distinct-snoc :
    (xs : List Str) (x : Str) → Distinct xs → contains xs x ≡ false → Distinct (xs ++ (x ∷ []))
Distinct-snoc [] x d n = (refl, tt)
Distinct-snoc (y ∷ ys) x d n =
    (ground (arith, contains-append ys (x ∷ []) y), Distinct-snoc ys x d.1 (ground arith))

pub remove_first-contains :
    (n m : Str) (xs : List Str) {ys : List Str}
    → Distinct xs
    → remove_first n xs ≡ some ys
    → contains ys m ≡ (contains xs m && not (m == n))
unfolding remove_first
remove_first-contains n m [] d h = cc
remove_first-contains n m (x ∷ xs) {ys = ys} d h = elim (Bool-cases (n == x)) [
  | inl e ↦
      let q : xs ≡ ys = ground arith in
      subst (λ l. contains l m ≡ (contains (x ∷ xs) m && not (m == n))) q (ground arith)
  | inr e ↦ elim (Option-cases (remove_first n xs)) [
    | inl f ↦ absurd (ground arith)
    | inr (zs, f) ↦
        let q : x ∷ zs ≡ ys = ground arith in
        subst (λ l. contains l m ≡ (contains (x ∷ xs) m && not (m == n))) q
          (ground (arith, remove_first-contains n m xs d.1 f))
  ]
]

pub remove_first-Distinct :
    (n : Str) (xs : List Str) {ys : List Str}
    → Distinct xs
    → remove_first n xs ≡ some ys
    → Distinct ys
unfolding remove_first
remove_first-Distinct n [] d h = cc
remove_first-Distinct n (x ∷ xs) {ys = ys} d h = elim (Bool-cases (n == x)) [
  | inl e ↦ let q : xs ≡ ys = ground arith in subst Distinct q d.1
  | inr e ↦ elim (Option-cases (remove_first n xs)) [
    | inl f ↦ absurd (ground arith)
    | inr (zs, f) ↦
        let q : x ∷ zs ≡ ys = ground arith in
        subst Distinct q
          (ground (arith, remove_first-contains n x xs d.1 f), remove_first-Distinct n xs d.1 f)
  ]
]

pub remove_first-found : (n : Str) (xs : List Str) → contains xs n ≡ true → remove_first n xs ≢ none
unfolding remove_first
remove_first-found n [] h e = cc
remove_first-found n (x ∷ xs) h e = ground (arith, remove_first-found n xs)

-- The invariant reads the messages, the orders and the counter only.
pub IsIndexed-same :
    (c d : Chat)
    → d.messages ≡ c.messages
    → d.order ≡ c.order
    → c.counter ≤ d.counter
    → IsIndexed c
    → IsIndexed d
IsIndexed-same c d m o l i = record {
  listed = λ s n.
      ap (λ x. contains (get_or x s []) n) o
      ∙ (i.listed s n ∙ ap (λ x. has x n && (space_of n == s)) (sym m));
  once = λ s. subst (λ x. Distinct (get_or x s [])) (sym o) (i.once s);
  fresh = λ s k e b. ap (λ x. has x (message_name s k)) m ∙ i.fresh s k e (ground arith);
}

pub get_or-put-if :
    (d : Dict Str (List Str)) (k j : Str) (v : List Str)
    → get_or (put d k v) j [] ≡ (if j == k then v else get_or d j [])
get_or-put-if d k j v = ground (arith, get-put d k j v)

pub has-put :
    {A : Type 0} (d : Dict Str A) (k j : Str) (v : A) → has (put d k v) j ≡ (j == k || has d j)
has-put d k j v = ground (arith, get-put d k j v)

-- The orders with a name more.
listed-snoc :
    (c : Chat) (space m : Str) (s n : Str)
    → IsIndexed c
    → space_of m ≡ space
    → contains (if s == space then get_or c.order space [] ++ (m ∷ []) else get_or c.order s []) n
      ≡ ((n == m || has c.messages n) && (space_of n == s))
listed-snoc c space m s n i p =
    let here : n ≡ m → space_of n ≡ space = λ r. ap space_of r ∙ p in
    ground (
      arith,
      contains-append (get_or c.order space []) (m ∷ []) n,
      i.listed space n,
      i.listed s n,
      here,
    )

once-snoc :
    (c : Chat) (space m : Str) (s : Str)
    → IsIndexed c
    → has c.messages m ≡ false
    → Distinct (if s == space then get_or c.order space [] ++ (m ∷ []) else get_or c.order s [])
once-snoc c space m s i free = elim (Bool-cases (s == space)) [
  | inl q ↦ rw q (
      Distinct-snoc (get_or c.order space []) m (i.once space)
        (i.listed space m ∙ ap (λ x. x && (space_of m == space)) free))
  | inr q ↦ rw q (i.once s)
]

names-apart :
    (s t : Str) (k n : ℕ)
    → slashes s ≡ 1
    → slashes t ≡ 1
    → n < k
    → (message_name s k == message_name t n) ≡ false
names-apart s t k n hs ht l = elim (str_eq.dec (message_name s k) (message_name t n)) [
  | yes q ↦ let e : k ≡ n = message_name-injective s t k n hs ht q in absurd (ground arith)
  | no q ↦ ground arith
]

-- A new message keeps the invariant, in a space whose name has one slash.
pub insert_in-IsIndexed :
    (now : ℕ) (space sender text thread sender_type : Str) (attachments : List Attachment)
    (quoted : Option Quote) (c : Chat)
    → slashes space ≡ 1
    → IsIndexed c
    → IsIndexed (insert_in now space sender text thread sender_type attachments quoted c).1
unfolding insert_in
insert_in-IsIndexed now space sender text thread sender_type attachments quoted c one i =
    let m = message_name space c.counter in
    let free : has c.messages m ≡ false = i.fresh space c.counter one (ground arith) in
    record {
      listed = λ s n.
          ap (λ x. contains x n) (get_or-put-if c.order space s _)
          ∙ (listed-snoc c space m s n i (space_of-message_name space c.counter one)
              ∙ sym (ap (λ x. x && (space_of n == s)) (has-put c.messages m n _)));
      once = λ s.
          subst Distinct (sym (get_or-put-if c.order space s _)) (once-snoc c space m s i free);
      fresh = λ s k e b.
          has-put c.messages m (message_name s k) _
          ∙ ap (λ x. x || has c.messages (message_name s k))
              (names-apart s space k c.counter e one (ground arith))
          ∙ i.fresh s k e (ground arith);
    }
