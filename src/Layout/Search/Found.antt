-- ===== src/Layout/Search/Found.antt =====
-- SearchModal.tsx: which items a query finds, and what is offered.
use mathlib.Core.List.{Memᴰ}
use mathlib.Core.List.Memᴰ
use cloud_weave.Prelude.{
  ℕ, String, Bool, true, false, List, [], ◌∷◌, ◌++◌, map, keep, drop, length, ◌==◌, if◌then◌else◌,
  ◌≡◌, refl, ap, sym, subst, ◌∙◌, ◌↔◌, ◌⊎◌, inl, inr, arith, Bool-cases, append-nil,
}
use cloud_weave.Html.{clicks, each}
use cloud_weave.Layout.Search.{
  to_lower_case, is_prefix, includes, is_found, filtered, stop, close, select, result, no_results,
  view,
}
use cloud_weave.Layout.Search.Items.{SearchItem, search_items}

-- The text `p` stands somewhere in a text.
pub data Occurs (p : List ℕ) : List ℕ → Type 0 where
  here : {s : List ℕ} (rest : List ℕ) → p ++ rest ≡ s → Occurs p s
  later : {s : List ℕ} (c : ℕ) → Occurs p s → Occurs p (c ∷ s)

is_prefix-drop : (p s : List ℕ) → is_prefix p s ≡ true → p ++ drop (length p) s ≡ s
is_prefix-drop [] s e = refl
is_prefix-drop (d ∷ p) [] e = cc
is_prefix-drop (d ∷ p) (c ∷ s) e = ground (arith, is_prefix-drop p s)

is_prefix-append : (p rest : List ℕ) → is_prefix p (p ++ rest) ≡ true
is_prefix-append [] rest = refl
is_prefix-append (d ∷ p) rest = ground (arith, is_prefix-append p rest)

includes-Occurs : (s p : List ℕ) → includes s p ≡ true → Occurs p s
unfolding includes
includes-Occurs [] p e = here (drop (length p) []) (is_prefix-drop p [] e)
includes-Occurs (c ∷ s) p e = elim (Bool-cases (is_prefix p (c ∷ s))) [
  | inl front ↦ here (drop (length p) (c ∷ s)) (is_prefix-drop p (c ∷ s) front)
  | inr fails ↦ later c (includes-Occurs s p (rw fails at e))
]

includes-prefix : (s p : List ℕ) → is_prefix p s ≡ true → includes s p ≡ true
unfolding includes
includes-prefix [] p e = e
includes-prefix (c ∷ s) p e = rw e refl

Occurs-includes : {p s : List ℕ} → Occurs p s → includes s p ≡ true
unfolding includes
Occurs-includes {p = p} {s = s} (here rest e) =
    includes-prefix s p (subst (λ t. is_prefix p t ≡ true) e (is_prefix-append p rest))
Occurs-includes (later c o) = ground (arith, Occurs-includes o)

kept_was :
    (f : SearchItem → Bool) (xs : List SearchItem) {x : SearchItem}
    → Memᴰ x (keep f xs)
    → Memᴰ x xs × (f x ≡ true)
kept_was f [] m = absurd (Memᴰ.not-nil m)
kept_was f (y ∷ ys) {x} m = elim (Bool-cases (f y)) [
  | inl holds ↦ elim (Memᴰ.cases_cons (rw holds at m)) [
    | inl e ↦ (Memᴰ.head e, ap f e ∙ holds)
    | inr n ↦ let was = kept_was f ys n in (Memᴰ.tail was.0, was.1)
  ]
  | inr fails ↦ let was = kept_was f ys (rw fails at m) in (Memᴰ.tail was.0, was.1)
]

was_kept :
    (f : SearchItem → Bool) (xs : List SearchItem) {x : SearchItem}
    → Memᴰ x xs
    → f x ≡ true
    → Memᴰ x (keep f xs)
was_kept f [] m h = absurd (Memᴰ.not-nil m)
was_kept f (y ∷ ys) {x} m h = elim (Memᴰ.cases_cons m) [
  | inl e ↦ rw (sym (ap f e) ∙ h) (Memᴰ.head e)
  | inr n ↦ elim (Bool-cases (f y)) [
    | inl holds ↦ rw holds (Memᴰ.tail (was_kept f ys n h))
    | inr fails ↦ rw fails (was_kept f ys n h)
  ]
]

-- The query stands in the title, in the description or in the category, whatever the cases of the
-- letters.
abbrev pub Mentions : String → SearchItem → Type 0
Mentions query item =
    Occurs (to_lower_case query) (to_lower_case item.title)
    ⊎ (Occurs (to_lower_case query) (to_lower_case item.description)
        ⊎ Occurs (to_lower_case query) (to_lower_case item.category))

found-Mentions :
    (query : String) (item : SearchItem) → is_found query item ≡ true → Mentions query item
unfolding is_found
found-Mentions query item e =
    let q = to_lower_case query in
    elim (Bool-cases (includes (to_lower_case item.title) q)) [
      | inl holds ↦ inl (includes-Occurs _ q holds)
      | inr fails ↦ elim (Bool-cases (includes (to_lower_case item.description) q)) [
        | inl holds ↦ inr (inl (includes-Occurs _ q holds))
        | inr neither ↦ inr (inr (includes-Occurs _ q (rw (fails, neither) at e)))
      ]
    ]

Mentions-found :
    (query : String) (item : SearchItem) → Mentions query item → is_found query item ≡ true
unfolding is_found
Mentions-found query item (inl o) = rw (Occurs-includes o) refl
Mentions-found query item (inr (inl o)) = ground (arith, Occurs-includes o)
Mentions-found query item (inr (inr o)) = ground (arith, Occurs-includes o)

-- An item is among the results of a query exactly when it is one of the site's items and the query
-- stands in its title, its description or its category, whatever the cases of the letters.
pub filtered_iff :
    (query : String) (item : SearchItem)
    → Memᴰ item (filtered query) ↔ (Memᴰ item search_items × Mentions query item)
unfolding filtered
filtered_iff query item = (
  λ m.
      let was = kept_was (is_found query) search_items m in
      (was.0, found-Mentions query item was.1),
  λ h. was_kept (is_found query) search_items h.0 (Mentions-found query item h.1),
)

clicks-each-result :
    (items : List SearchItem) → clicks (each items result) ≡ map (λ i. select i.id) items
unfolding result
clicks-each-result [] = refl
clicks-each-result (i ∷ is) = ap (λ t. select i.id ∷ t) (clicks-each-result is)

clicks-results :
    (query : String) (items : List SearchItem)
    → clicks (if length items == 0 then no_results query else each items result)
      ≡ map (λ i. select i.id) items
unfolding no_results
clicks-results query [] = refl
clicks-results query (i ∷ is) = ground (arith, clicks-each-result (i ∷ is))

-- While it is closed the modal offers nothing; while it is open it offers to close it and to select
-- each item found, in the order of the site's items, and keeps clicks from the page behind.
pub clicks-search :
    (query : String)
    → (clicks (view false query) ≡ [])
      × (clicks (view true query) ≡ stop ∷ close ∷ map (λ i. select i.id) (filtered query))
unfolding view
clicks-search query = (
  refl,
  ground (
    arith,
    clicks-results query (filtered query),
    append-nil (map (λ i. select i.id) (filtered query)),
  ),
)
