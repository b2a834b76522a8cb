-- ===== src/Modules/Chat/Names.antt =====
-- Resource names of the chat driver.
use jetty.Prelude.{ℕ, zero, suc, ◌+◌, [], ◌∷◌, ◌++◌, ◌≡◌, sym, ap, ◌∙◌, arith, eqb, if◌then◌else◌}
use jetty.Prelude.Text.{Str, codes}
use jetty.Prelude.Text.Decimal.{str_of, py_int, natural, py_int-str_of}
use jetty.Modules.Chat.Mock.{before_slash, space_of, message_name}

abbrev pub slashes : Str → ℕ
slashes [] = 0
slashes (c ∷ s) = if eqb c b'/' then slashes s + 1 else slashes s

before_slash-append :
    (s r : Str) (k : ℕ) → slashes s ≡ k → before_slash (suc k) (s ++ (b'/' ∷ r)) ≡ s
unfolding before_slash
before_slash-append [] r k h = ground arith
before_slash-append (c ∷ s) r zero h = ground (arith, before_slash-append s r zero)
before_slash-append (c ∷ s) r (suc k) h =
    ground (arith, before_slash-append s r k, before_slash-append s r (suc k))

-- `_space_of` gives the space of a message's name.
pub space_of-message_name :
    (space : Str) (n : ℕ) → slashes space ≡ 1 → space_of (message_name space n) ≡ space
space_of-message_name space n h = before_slash-append space _ 1 h

append-injective : (s x y : Str) → s ++ x ≡ s ++ y → x ≡ y
append-injective [] x y h = h
append-injective (c ∷ s) x y h = append-injective s x y (ground arith)

str_of-injective : (m n : ℕ) → str_of m ≡ str_of n → m ≡ n
str_of-injective m n h =
    let e : natural m ≡ natural n = sym (py_int-str_of m) ∙ (ap py_int h ∙ py_int-str_of n) in cc

-- Names differ where their numbers do.
pub message_name-injective :
    (s t : Str) (m n : ℕ)
    → slashes s ≡ 1
    → slashes t ≡ 1
    → message_name s m ≡ message_name t n
    → m ≡ n
message_name-injective s t m n hs ht h =
    let e : s ≡ t =
      sym (space_of-message_name s m hs) ∙ (ap space_of h ∙ space_of-message_name t n ht) in
    str_of-injective m n (
      append-injective (codes "/messages/m") _ _
        (append-injective s _ _ (h ∙ ap (λ x. message_name x n) (sym e))))
