-- ===== src/Prelude/Text.antt =====
-- Numbers and texts as the interface prints and compares them: String(n), s + t, ===.
use Prim.Native.Nat.{ℕ, zero, suc, ◌/◌, ◌%◌}
use Prim.Native.Char.{code}
use Prim.Native.String
use Prim.Native.String.{String}
use mathlib.Core.Bool.{Bool}
use mathlib.Core.Option.{Option, none, some}
use mathlib.Core.List.{List, [], ◌∷◌}
use text.Mathlib.Text.{◌==◌ as text_eq}
use cloud_weave.Prelude.Tests.{if◌then◌else◌, ltb, ◌==◌}

-- `s === t`
abbrev pub same : String → String → Bool
same s t = text_eq s t

-- `s + t` on texts, and the joints of a template literal.
abbrev pub cat : String → String → String
cat s t = String.◌++◌ s t

digit : ℕ → String
digit d =
    if d == 0
    then "0"
    else if d == 1
    then "1"
    else if d == 2
    then "2"
    else if d == 3
    then "3"
    else if d == 4
    then "4"
    else if d == 5
    then "5"
    else if d == 6
    then "6"
    else if d == 7
    then "7"
    else if d == 8
    then "8"
    else "9"

-- One digit for each unit of fuel; a number below 2 ^ fuel has no more digits than that.
show_from : ℕ → ℕ → String
unfolding digit
show_from zero n = ""
show_from (suc f) n =
    let more = cat (show_from f (n / 10)) (digit (n % 10)) in if ltb n 10 then digit n else more

-- `String(n)` and `${n}`
unfoldable pub show : ℕ → String
unfolding show_from
show n = show_from (suc n) n

abbrev pub concat : List String → String
concat [] = ""
concat (s ∷ ss) = cat s (concat ss)

-- `ss.join(glue)`
abbrev pub join : String → List String → String
join glue [] = ""
join glue (s ∷ []) = s
join glue (s ∷ t ∷ ss) = cat s (cat glue (join glue (t ∷ ss)))

-- What follows a prefix.
abbrev pub after : String → String → Option String
after String.[] s = some s
after (String.◌∷◌ c p) String.[] = none
after (String.◌∷◌ c p) (String.◌∷◌ d s) = if code c == code d then after p s else none

-- `s.replace(p, t)`
abbrev pub replace : String → String → String → String
replace p t String.[] = elim (after p String.[]) [ none ↦ String.[] | some rest ↦ cat t rest ]
replace p t (String.◌∷◌ c s) =
    let kept = replace p t s in
    elim (after p (String.◌∷◌ c s)) [ none ↦ String.◌∷◌ c kept | some rest ↦ cat t rest ]

-- The text before the first place where `sep` stands, all of it where there is none.
abbrev pub until : String → String → String
until sep String.[] = String.[]
until sep (String.◌∷◌ c s) =
    let more = until sep s in
    elim (after sep (String.◌∷◌ c s)) [ none ↦ String.◌∷◌ c more | some rest ↦ String.[] ]

-- The text behind the first place where `sep`, which is not empty, stands.
abbrev pub beyond : String → String → Option String
beyond sep String.[] = none
beyond sep (String.◌∷◌ c s) =
    let later = beyond sep s in
    elim (after sep (String.◌∷◌ c s)) [ none ↦ later | some rest ↦ some rest ]
