-- ===== src/Domain/Chat/Bodies.antt =====
-- What the rules on message bodies and page limits accept.
use keebhub.Prelude.{
  ◌≤◌, ◌≡◌, ◌≢◌, ◌⊎◌, ◌↔◌, none, [], ◌∷◌, arith, ℤ, pos, negsuc, Within, pos_part, Text, rune_count,
}
use keebhub.Domain.Errors.{Error, ok, err}
use keebhub.Domain.Chat.{validate_message_body, validate_chat_page_limit}

pub validate_message_body_iff :
    (body : Text) → (validate_message_body body ≡ none) ↔ ((body ≢ []) × (rune_count body ≤ 2000))
unfolding validate_message_body
validate_message_body_iff [] = ground arith
validate_message_body_iff (c ∷ body) = ground arith

-- An accepted page limit is between 1 and 100; zero stands for 20.
pub validate_chat_page_limit-Within :
    (limit n : ℤ)
    → validate_chat_page_limit limit ≡ ok n
    → Within 1 100 n × (((limit ≡ pos 0) × (n ≡ pos 20)) ⊎ (n ≡ limit))
unfolding validate_chat_page_limit
validate_chat_page_limit-Within (pos l) n h = ground arith
validate_chat_page_limit-Within (negsuc l) n h = ground arith

-- A limit that is refused is not zero and not between 1 and 100.
pub validate_chat_page_limit-refused :
    (limit : ℤ) (e : Error)
    → validate_chat_page_limit limit ≡ err e
    → (limit ≢ pos 0) × ¬ Within 1 100 limit
unfolding validate_chat_page_limit
validate_chat_page_limit-refused (pos l) e h = (λ z. ground arith, λ w. ground arith)
validate_chat_page_limit-refused (negsuc l) e h = (λ z. ground arith, λ w. ground arith)

-- An accepted limit is the one given, or 20 for zero.
pub validate_chat_page_limit-asked :
    (limit n : ℤ)
    → validate_chat_page_limit limit ≡ ok n
    → ((limit ≡ pos 0) × (pos_part n ≡ 20)) ⊎ (limit ≡ pos (pos_part n))
unfolding validate_chat_page_limit
validate_chat_page_limit-asked (pos l) n h = ground arith
validate_chat_page_limit-asked (negsuc l) n h = ground arith
