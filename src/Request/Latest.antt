-- ===== src/Request/Latest.antt =====
-- The text and the image count of a request are those of one message.
use mathlib.Core.List.{reverse-append, reverse-cons, append_assoc}
use mock_agents.Prelude.{
  true, false, ◌&&◌, ◌==◌, List, [], ◌∷◌, ◌++◌, ◌≡◌, refl, sym, ap, ◌∙◌, subst, if◌then◌else◌,
  str_eq, reverse, All,
}
use mock_agents.Request.{
  RequestMessage, text_from, latest_user_message, image_count_from, latest_user_image_count,
  is_empty_turn,
}

abbrev pub IsOther : RequestMessage → Type 0
IsOther m = str_eq m.role "user" ≡ false

All-append :
    (xs ys : List RequestMessage) → All IsOther xs → All IsOther ys → All IsOther (xs ++ ys)
All-append [] ys a b = b
All-append (x ∷ xs) ys a b = (a.0, All-append xs ys a.1 b)

All-reverse : (xs : List RequestMessage) → All IsOther xs → All IsOther (reverse xs)
All-reverse [] a = tt
All-reverse (x ∷ xs) a =
    subst (All IsOther) (sym (reverse-cons x xs))
      (All-append (reverse xs) (x ∷ []) (All-reverse xs a.1) (a.0, tt))

from_the_end :
    (before after : List RequestMessage) (m : RequestMessage)
    → reverse (before ++ m ∷ after) ≡ reverse after ++ m ∷ reverse before
from_the_end before after m =
    reverse-append before (m ∷ after)
    ∙ ap (λ (r : List RequestMessage). r ++ reverse before) (reverse-cons m after)
    ∙ append_assoc (reverse after) (m ∷ []) (reverse before)

passed :
    (others rest : List RequestMessage)
    → All IsOther others
    → (text_from (others ++ rest) ≡ text_from rest)
      × (image_count_from (others ++ rest) ≡ image_count_from rest)
unfolding text_from image_count_from
passed [] rest a = (refl, refl)
passed (m ∷ others) rest a =
    let later = passed others rest a.1 in
    (
      ap (λ b. if b then m.content else text_from (others ++ rest)) a.0 ∙ later.0,
      ap (λ b. if b then m.image_count else image_count_from (others ++ rest)) a.0 ∙ later.1,
    )

-- The text and the image count that a request is matched by are those of the last user message,
-- whatever other messages follow it, and the request is turned away exactly when that message has
-- neither.
pub latest_user_lem :
    (before after : List RequestMessage) (m : RequestMessage)
    → str_eq m.role "user" ≡ true
    → All IsOther after
    → let messages = before ++ m ∷ after in
      (latest_user_message messages ≡ m.content)
      × (latest_user_image_count messages ≡ m.image_count)
      × (is_empty_turn messages ≡ (str_eq m.content "" && m.image_count == 0))
unfolding latest_user_message latest_user_image_count is_empty_turn text_from image_count_from
latest_user_lem before after m user others =
    let turned = from_the_end before after m in
    let skipped = passed (reverse after) (m ∷ reverse before) (All-reverse after others) in
    let text : latest_user_message (before ++ m ∷ after) ≡ m.content =
      ap text_from turned
      ∙ skipped.0
      ∙ ap (λ b. if b then m.content else text_from (reverse before)) user in
    let images : latest_user_image_count (before ++ m ∷ after) ≡ m.image_count =
      ap image_count_from turned
      ∙ skipped.1
      ∙ ap (λ b. if b then m.image_count else image_count_from (reverse before)) user in
    (
      text,
      images,
      ap (λ t. str_eq t "" && latest_user_image_count (before ++ m ∷ after) == 0) text
          ∙ ap (λ n. str_eq m.content "" && n == 0) images,
    )
