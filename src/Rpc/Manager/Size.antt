-- ===== src/Rpc/Manager/Size.antt =====
-- The number of pairs in the index, and the counter's arithmetic.
use rust_api_stack.Base.{
  ℕ, ◌+◌, ◌-◌, ◌%◌, ◌≤◌, ◌≡◌, refl, none, List, [], ◌∷◌, arith, length, nat_eq,
}
use rust_api_stack.Base.Text.{Text, Text-eq, text_eq_iff}
use rust_api_stack.Base.HashMap.{HashMap, IsMap, get, insert, remove}
use rust_api_stack.Rpc.Manager.{ConnectionId, topic_connections, fetch_add, fetch_sub}

abbrev pub Index : Type 0
Index = HashMap Text (List ConnectionId)

-- The number of pairs of a topic and a connection.
unfoldable pub size : Index → ℕ
size [] = 0
size ((topic, ids) ∷ index) = length ids + size index

pub size-insert :
    (topic : Text) (ids : List ConnectionId) (index : Index)
    → size (insert topic ids index) + length (topic_connections topic index)
      ≡ size index + length ids
unfolding size insert topic_connections get
size-insert topic ids [] = omega arith
size-insert topic ids ((name, others) ∷ index) = ground (arith, size-insert topic ids index)

size-remove_none :
    (topic : Text) (index : Index) → get topic index ≡ none → remove topic index ≡ index
unfolding remove get
size-remove_none topic [] h = refl
size-remove_none topic ((name, others) ∷ index) h = ground (arith, size-remove_none topic index)

pub size-remove :
    (topic : Text) (index : Index)
    → IsMap index
    → size (remove topic index) + length (topic_connections topic index) ≡ size index
unfolding size remove topic_connections get
size-remove topic [] h = refl
size-remove topic ((name, others) ∷ index) h =
    ground
      (arith, size-remove topic index h.1, size-remove_none topic index, text_eq_iff name topic)

pub fetch_add_mod :
    (n : ℕ) → fetch_add (n % 18446744073709551616) 1 ≡ (n + 1) % 18446744073709551616
unfolding fetch_add
fetch_add_mod n = omega arith

fetch_sub_mod :
    (n k : ℕ) → k ≤ n → fetch_sub (n % 18446744073709551616) k ≡ (n - k) % 18446744073709551616
unfolding fetch_sub
fetch_sub_mod n k h = omega arith

pub fetch_back :
    (n : ℕ) → fetch_sub (fetch_add (n % 18446744073709551616) 1) 1 ≡ n % 18446744073709551616
unfolding fetch_sub fetch_add
fetch_back n = omega arith

pub shrunk :
    (total n n' a b : ℕ)
    → total ≡ n % 18446744073709551616
    → n' + a ≡ n + b
    → b ≤ a
    → fetch_sub total (a - b) ≡ n' % 18446744073709551616
shrunk total n n' a b counted moved less =
    let left : n' ≡ n - (a - b) = omega arith in
    rw (counted, left) (fetch_sub_mod n (a - b) (omega arith))
