-- ===== src/Layout/Navbar/Marked.antt =====
-- Navbar.tsx: which of the links is marked.
use text.Mathlib.TextEquality.{eq_iff}
use cloud_weave.Prelude.{
  ℕ, ◌+◌, ◌≤◌, String, Bool, true, false, ◌||◌, List, [], ◌∷◌, count_of, same, if◌then◌else◌, ◌≡◌,
  inl, inr, refl, subst, arith, Bool-cases,
}
use cloud_weave.Html.{tag_count, each}
use cloud_weave.Ui.CodeBlock.Regex.{Text, chars}
use cloud_weave.Ui.CodeBlock.Tokens.{starts_with}
use cloud_weave.Layout.Navbar.{NavItem, nav_items, is_active, nav_link, view}

-- Of two prefixes of a text one starts with the other.
two_prefixes :
    (t a b : Text)
    → starts_with t a ≡ true
    → starts_with t b ≡ true
    → (starts_with a b || starts_with b a) ≡ true
two_prefixes t [] b h k = ground arith
two_prefixes t (x ∷ a) [] h k = ground arith
two_prefixes [] (x ∷ a) (y ∷ b) h k = ground arith
two_prefixes (c ∷ t) (x ∷ a) (y ∷ b) h k = ground (arith, two_prefixes t a b)

starts_with_self : (t : Text) → starts_with t t ≡ true
starts_with_self [] = refl
starts_with_self (c ∷ t) = ground (arith, starts_with_self t)

active-prefix : (p h : String) → is_active p h ≡ true → starts_with (chars p) (chars h) ≡ true
unfolding is_active
active-prefix p h e = elim (Bool-cases (same p h)) [
  | inl eq ↦
      let path : p ≡ h = (eq_iff p h).0 eq in
      subst (λ t. starts_with (chars p) (chars t) ≡ true) path (starts_with_self (chars p))
  | inr ne ↦ ground (arith, ne, e)
]

-- No two of the links can be marked at once.
apart :
    (p h k : String)
    → (starts_with (chars h) (chars k) || starts_with (chars k) (chars h)) ≡ false
    → is_active p h ≡ true
    → is_active p k ≡ false
apart p h k d e =
    ground (arith, two_prefixes (chars p) (chars h) (chars k), active-prefix p h, active-prefix p k)

-- How many of five tests hold.
abbrev marks : Bool → Bool → Bool → Bool → Bool → ℕ
marks a b c d e =
    (if a then 1 else 0)
    + ((if b then 1 else 0)
        + ((if c then 1 else 0) + ((if d then 1 else 0) + (if e then 1 else 0))))

count_marks :
    (p : String)
    → count_of (λ item. is_active p item.href) nav_items
      ≡ marks
          (is_active p "/playground")
          (is_active p "/how-it-works")
          (is_active p "/concepts")
          (is_active p "/benchmarks")
          (is_active p "/docs")
count_marks p = ground arith

link_mark :
    (p : String) (item : NavItem)
    → tag_count "span" (nav_link p item) ≡ (if is_active p item.href then 1 else 0)
unfolding nav_link
link_mark p item = elim (Bool-cases (is_active p item.href)) [
  | inl e ↦ rw e refl
  | inr e ↦ rw e refl
]

links_marks :
    (p : String) (items : List NavItem)
    → tag_count "span" (each items (nav_link p)) ≡ count_of (λ item. is_active p item.href) items
links_marks p [] = refl
links_marks p (item ∷ items) = ground (arith, link_mark p item, links_marks p items)

drawn_marks :
    (p : String) → tag_count "span" (view p) ≡ 4 + tag_count "span" (each nav_items (nav_link p))
unfolding view
drawn_marks p = omega arith

few_marks :
    (p : String)
    → marks
        (is_active p "/playground")
        (is_active p "/how-it-works")
        (is_active p "/concepts")
        (is_active p "/benchmarks")
        (is_active p "/docs")
      ≤ 1
few_marks p = ground (
  arith,
  apart p "/playground" "/how-it-works" refl,
  apart p "/playground" "/concepts" refl,
  apart p "/playground" "/benchmarks" refl,
  apart p "/playground" "/docs" refl,
  apart p "/how-it-works" "/concepts" refl,
  apart p "/how-it-works" "/benchmarks" refl,
  apart p "/how-it-works" "/docs" refl,
  apart p "/concepts" "/benchmarks" refl,
  apart p "/concepts" "/docs" refl,
  apart p "/benchmarks" "/docs" refl,
)

-- Whatever the path, at most one of the links is marked as the current page, and the bar draws one line
-- for each link that is.
pub one_marked :
    (pathname : String)
    → let marked = count_of (λ item. is_active pathname item.href) nav_items in
      (marked ≤ 1) × (tag_count "span" (view pathname) ≡ 4 + marked)
one_marked pathname = (
  omega (arith, count_marks pathname, few_marks pathname),
  omega (arith, drawn_marks pathname, links_marks pathname nav_items),
)
