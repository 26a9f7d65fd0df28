-- ===== src/Html.antt =====
-- What a component's render function returns (the JSX of documentation/components), for a type `A`
-- of the events that its handlers stand for. A custom tag such as an icon or `motion.div` keeps its
-- name; a fragment, an array and the children of an element are joined by `&`.
use cloud_weave.Prelude.{
  ℕ, suc, ◌+◌, String, Bool, false, List, [], ◌∷◌, ◌++◌, map, if◌then◌else◌, same, ◌&&◌, ◌||◌,
}

-- An attribute: a text, a number, a Boolean, an object of texts, a handler that does not read its
-- argument, a handler of the text of a field, and a handler of the number of a range input.
pub data Attr (A : Type 0) : Type 0 where
  prop : String → String → Attr A
  num : String → ℕ → Attr A
  flag : String → Bool → Attr A
  fields : String → List (String × String) → Attr A
  on : String → A → Attr A
  on_value : String → (String → A) → Attr A
  on_number : String → (ℕ → A) → Attr A

infixr 20 ◌&◌
pub data Node (A : Type 0) : Type 0 where
  nothing : Node A
  say : String → Node A
  element : String → List (Attr A) → Node A → Node A
  ◌&◌ : Node A → Node A → Node A

module _ {A : Type 0} where
  -- `{test && node}`
  abbrev pub when : Bool → Node A → Node A
  when test node = if test then node else nothing

  -- `{xs.map((x) => …)}`
  abbrev pub each {ℓ} : {X : Type ℓ} → List X → (X → Node A) → Node A
  each [] f = nothing
  each (x ∷ xs) f = f x & each xs f

  -- `{xs.map((x, i) => …)}`, the first index being `i`.
  abbrev pub each_from {ℓ} : {X : Type ℓ} → ℕ → List X → (X → ℕ → Node A) → Node A
  each_from i [] f = nothing
  each_from i (x ∷ xs) f = f x i & each_from (suc i) xs f

  abbrev pub is_disabled : List (Attr A) → Bool
  is_disabled [] = false
  is_disabled (flag name b ∷ attrs) = (same name "disabled" && b) || is_disabled attrs
  is_disabled (prop _ _ ∷ attrs) = is_disabled attrs
  is_disabled (num _ _ ∷ attrs) = is_disabled attrs
  is_disabled (fields _ _ ∷ attrs) = is_disabled attrs
  is_disabled (on _ _ ∷ attrs) = is_disabled attrs
  is_disabled (on_value _ _ ∷ attrs) = is_disabled attrs
  is_disabled (on_number _ _ ∷ attrs) = is_disabled attrs

  abbrev pub click_of : List (Attr A) → List A
  click_of [] = []
  click_of (on name a ∷ attrs) = if same name "onClick" then a ∷ click_of attrs else click_of attrs
  click_of (flag _ _ ∷ attrs) = click_of attrs
  click_of (prop _ _ ∷ attrs) = click_of attrs
  click_of (num _ _ ∷ attrs) = click_of attrs
  click_of (fields _ _ ∷ attrs) = click_of attrs
  click_of (on_value _ _ ∷ attrs) = click_of attrs
  click_of (on_number _ _ ∷ attrs) = click_of attrs

  -- The events that a click on what is shown can raise, in document order. A disabled button
  -- raises none.
  abbrev pub clicks : Node A → List A
  clicks nothing = []
  clicks (say s) = []
  clicks (element tag attrs body) =
      (if is_disabled attrs then [] else click_of attrs) ++ clicks body
  clicks (a & b) = clicks a ++ clicks b

  -- The texts that are shown, in document order.
  abbrev pub texts : Node A → List String
  texts nothing = []
  texts (say s) = s ∷ []
  texts (element tag attrs body) = texts body
  texts (a & b) = texts a ++ texts b

  -- The tags of the elements, in document order.
  abbrev pub tags : Node A → List String
  tags nothing = []
  tags (say s) = []
  tags (element tag attrs body) = tag ∷ tags body
  tags (a & b) = tags a ++ tags b

  -- How many elements have this tag.
  abbrev pub tag_count : String → Node A → ℕ
  tag_count t nothing = 0
  tag_count t (say s) = 0
  tag_count t (element tag attrs body) = (if same tag t then 1 else 0) + tag_count t body
  tag_count t (a & b) = tag_count t a + tag_count t b

module _ {A B : Type 0} (f : A → B) where
  -- The attributes of a component inside another one, whose events are those of the outer one by `f`.
  abbrev pub relabel_attr : Attr A → Attr B
  relabel_attr (prop name s) = prop name s
  relabel_attr (num name n) = num name n
  relabel_attr (flag name b) = flag name b
  relabel_attr (fields name fs) = fields name fs
  relabel_attr (on name a) = on name (f a)
  relabel_attr (on_value name g) = on_value name (λ s. f (g s))
  relabel_attr (on_number name g) = on_number name (λ n. f (g n))

  -- What a component inside another one shows.
  abbrev pub relabel : Node A → Node B
  relabel nothing = nothing
  relabel (say s) = say s
  relabel (element tag attrs body) = element tag (map relabel_attr attrs) (relabel body)
  relabel (m & n) = relabel m & relabel n
